-- ===== src/Plan/Issues.antt =====
-- internal/wave/preflight.go: issues, their order, and the tests on texts.
use subagent_broker.Common.{
  ℕ, String, Bool, true, false, List, [], ◌∷◌, map, ◌==◌, ◌||◌, string_eq, any, codes, to_lower,
  contains_codes, same_codes, text_lt, if◌then◌else◌,
}
use subagent_broker.Scope.Text.{trim_space}
use subagent_broker.Plan.Types.{
  ValidationCommand, IssueKind, issue_kind_text, IssueSeverity, error, other, issue_severity_eq,
  severity_text, Issue,
}

-- An issue of the severity that stops a wave.
abbrev pub error_issue : IssueKind → List String → String → Issue
error_issue kind tasks details = record {
  kind = kind;
  severity = error;
  tasks = tasks;
  details = details;
}

unfoldable pub issue_severity : Issue → IssueSeverity
issue_severity issue = if issue.severity == other "" then error else issue.severity

unfoldable pub has_error_issues : List Issue → Bool
unfolding issue_severity any
has_error_issues issues = any (λ issue. issue_severity issue == error) issues

unfoldable pub issue_less : Issue → Issue → Bool
unfolding issue_severity issue_kind_text severity_text
issue_less i j =
    let si = issue_severity i in
    let sj = issue_severity j in
    if si == sj
    then (if issue_kind_text i.kind == issue_kind_text j.kind
        then text_lt i.details j.details
        else text_lt (issue_kind_text i.kind) (issue_kind_text j.kind))
    else if si == error
    then true
    else if sj == error
    then false
    else text_lt (severity_text si) (severity_text sj)

-- `strings.ToLower(text)`, as its code points.
unfoldable pub lower_codes : String → List ℕ
unfolding to_lower
lower_codes text = map to_lower (codes text)

unfoldable pub is_one_of : List ℕ → List String → Bool
unfolding same_codes any
is_one_of text names = any (λ name. same_codes text (codes name)) names

unfoldable pub is_placeholder : String → Bool
unfolding lower_codes is_one_of trim_space
is_placeholder text = is_one_of (lower_codes (trim_space text)) (
    "" ∷ "none" ∷ "none declared" ∷ "none declared." ∷ "n/a" ∷ "na" ∷ "tbd" ∷ "todo" ∷ "-" ∷ "—"
    ∷ "see contract" ∷ "see task contract" ∷ [])

unfoldable pub is_global_validation : ValidationCommand → Bool
unfolding lower_codes is_one_of trim_space contains_codes
is_global_validation validation =
    let text = lower_codes validation.command in
    is_one_of (lower_codes (trim_space validation.scope))
      ("global" ∷ "repository" ∷ "repo" ∷ "all" ∷ [])
    || contains_codes text (codes "go test ./...")
    || contains_codes text (codes "npm test -- --all")
    || contains_codes text (codes "cargo test --workspace")
