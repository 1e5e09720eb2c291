-- ===== src/Report/Examples.antt =====
-- Instances for internal/report, with a codec that reads two envelopes and their metas.
use Prim.Native.Char.{char}
use subagent_broker.Common.{
  ℕ, String, false, none, some, ◌≡◌, ◌≢◌, refl, ok, err, String-discrete, ℕ_discrete, if◌then◌else◌,
  ◌==◌, string_eq,
}
use subagent_broker.Attempts.Types.{pos}
use subagent_broker.Barrier.Types.{EnvelopeStatus}
use subagent_broker.Report.Types.{Envelope, Meta, EnvelopeStatus-discrete}
use subagent_broker.Report.Markdown.{render_markdown}
use subagent_broker.Report.Disk.{
  Codec, Directory, no_envelope, with_newline, publish, verify_disk, meta_of, write_failed,
  markdown_mismatch,
}
use subagent_broker.Report.Published.{
  ReadsBack, whole, under_markdown, AtomicOutcome, verify_disk-publish, publish_atomically,
}

abbrev in_quotes : String → String
in_quotes s = s

abbrev first_report : Envelope
first_report = record no_envelope {
  schema_version = "v1alpha1";
  task_id = "t";
  worker_id = "w";
  status = EnvelopeStatus.cancelled;
  summary = "one";
  no_files_changed_reason = "stopped";
  validation_not_run_reason = "stopped";
  stop_reason = "asked";
  workspace_state = "clean";
}

abbrev second_report : Envelope
second_report = record first_report { summary = "one again" }

abbrev marked : String → String
marked s = String.◌∷◌ (char 35 tt) s

abbrev meta_like : Envelope → ℕ → Meta
meta_like e now = record {
  schema_version = "v1alpha1";
  task_id = "t";
  worker_id = "w";
  attempt_number = pos 1;
  status = EnvelopeStatus.cancelled;
  envelope_hash = marked e.summary;
  markdown_hash = marked (render_markdown e);
  published_at = now;
  unverified = false;
}

-- A codec whose texts are the summaries, marked for the metas.
abbrev two_reports : Codec
two_reports = record {
  hash = marked;
  encode_envelope = λ e. e.summary;
  decode_envelope = λ text.
      if text == "one\n"
      then some first_report
      else if text == "one again\n"
      then some second_report
      else none;
  encode_meta = λ m. m.envelope_hash;
  decode_meta = λ text.
      if text == "#one\n"
      then some (meta_like first_report 10)
      else if text == "#one again\n"
      then some (meta_like second_report 20)
      else none;
}

first_law : ReadsBack two_reports first_report (pos 1) 10
unfolding with_newline String-discrete ℕ_discrete
first_law = record { envelope_reads = refl; meta_reads = refl; hashed = λ text e. cc }

second_law : ReadsBack two_reports second_report (pos 1) 20
unfolding with_newline String-discrete ℕ_discrete
second_law = record { envelope_reads = refl; meta_reads = refl; hashed = λ text e. cc }

abbrev nothing_yet : Directory
nothing_yet = record { envelope_file = none; meta_file = none; markdown_file = none }

published :
    publish two_reports in_quotes 3 nothing_yet first_report (pos 1) 10
    ≡ (whole two_reports first_report (pos 1) 10, ok tt)
unfolding publish String-discrete ℕ_discrete
published = refl

verify_disk-publish_example :
    verify_disk two_reports (whole two_reports first_report (pos 1) 10)
    ≡ ok (meta_of two_reports first_report (pos 1) 10, first_report)
verify_disk-publish_example =
    verify_disk-publish two_reports in_quotes 3 nothing_yet
      (whole two_reports first_report (pos 1) 10) first_report (pos 1) 10 first_law published

-- Two writes of three: the new envelope and its meta, with the old report.md.
abbrev torn : Directory
torn = under_markdown two_reports second_report (pos 1) 20 (render_markdown first_report)

stopped :
    publish two_reports in_quotes 2
      (whole two_reports first_report (pos 1) 10)
      second_report
      (pos 1)
      20
    ≡ (torn, err write_failed)
unfolding publish String-discrete ℕ_discrete
stopped = refl

-- The torn files do not verify.
torn_unverified : verify_disk two_reports torn ≡ err markdown_mismatch
unfolding verify_disk with_newline String-discrete ℕ_discrete render_markdown
    EnvelopeStatus-discrete
torn_unverified = refl

other_hash : marked "one again" ≢ marked "one"
other_hash e = cc e

other_line : marked (with_newline "one again") ≢ marked "one"
unfolding with_newline
other_line e = cc e

publish_atomically_example :
    AtomicOutcome two_reports first_report (pos 1) 10 second_report (pos 1) 20 false torn
publish_atomically_example =
    publish_atomically two_reports in_quotes 2 torn first_report (pos 1) 10 second_report (pos 1) 20
      (err write_failed) first_law second_law refl other_hash other_line stopped
