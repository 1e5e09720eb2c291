-- ===== src/Report/Disk.antt =====
-- internal/report/envelope.go, `Publish` and `VerifyDiskArtifacts`. A directory is its three files; a
-- file that cannot be read is none. sha256 and encoding/json are parameters, in a `Codec`.
use Prim.Native.Char.{code}
use subagent_broker.Common.{
  ℕ, zero, suc, ltb, nat_eq, String, Bool, true, false, Option, none, some, List, [], ◌∷◌, ◌==◌,
  ◌||◌, ◌&&◌, not, string_eq, Result, ok, err, ◌>>=◌, ◌>>◌, fail_if, if◌then◌else◌,
}
use subagent_broker.Attempts.Types.{ℤ, pos, negsuc}
use subagent_broker.Barrier.Types.{EnvelopeStatus}
use subagent_broker.Report.Types.{Envelope, Meta, envelope_status_eq}
use subagent_broker.Report.Validate.{schema_version_text, validate_envelope}
use subagent_broker.Report.Markdown.{render_markdown}

pub record Codec : Type 0 where
  pub hash : String → String
  pub encode_envelope : Envelope → String
  pub decode_envelope : String → Option Envelope
  pub encode_meta : Meta → String
  pub decode_meta : String → Option Meta

pub record Directory : Type 0 where
  pub envelope_file : Option String
  pub meta_file : Option String
  pub markdown_file : Option String

-- The atomic writes of a publication.
pub data Write : Type 0 where
  envelope_write meta_write markdown_write : String → Write

unfoldable pub written : Write → Directory → Directory
written (envelope_write bytes) dir = record dir { envelope_file = some bytes }
written (meta_write bytes) dir = record dir { meta_file = some bytes }
written (markdown_write bytes) dir = record dir { markdown_file = some bytes }

-- The directory when `count` of the writes succeed, before one fails or the process ends.
unfoldable pub perform : ℕ → List Write → Directory → Directory
unfolding written
perform count [] dir = dir
perform zero (write ∷ rest) dir = dir
perform (suc count) (write ∷ rest) dir = perform count rest (written write dir)

pub data PublishError : Type 0 where
  invalid_envelope : String → PublishError
  no_attempt write_failed : PublishError

abbrev pub if_valid : Result String (Unit {0}) → Result PublishError (Unit {0})
if_valid (ok done) = ok tt
if_valid (err message) = err (invalid_envelope message)

abbrev pub is_positive : ℤ → Bool
is_positive (pos n) = ltb 0 n
is_positive (negsuc n) = false

unfoldable pub with_newline : String → String
with_newline String.[] = "\n"
with_newline (String.◌∷◌ c text) = String.◌∷◌ c (with_newline text)

-- The zero envelope, for a directory without one.
abbrev pub no_envelope : Envelope
no_envelope = record {
  schema_version = "";
  task_id = "";
  worker_id = "";
  status = EnvelopeStatus.other "";
  summary = "";
  work_completed = [];
  files_changed = [];
  no_files_changed_reason = "";
  validation = [];
  validation_not_run_reason = "";
  remaining_work = [];
  blocking_issues = [];
  stop_reason = "";
  failure_stage = "";
  error_summary = "";
  workspace_state = "";
  scope_expansion = none;
  scope_violations_self_reported = [];
  risks = [];
  handoff_notes = [];
}

-- `bytesTrimTrailingNewline`.
unfoldable pub trim_newline : String → String
trim_newline String.[] = String.[]
trim_newline (String.◌∷◌ c String.[]) = if code c == b'\n' then "" else String.◌∷◌ c ""
trim_newline (String.◌∷◌ c (String.◌∷◌ d s)) = String.◌∷◌ c (trim_newline (String.◌∷◌ d s))

pub data VerifyError : Type 0 where
  meta_missing markdown_missing envelope_missing : VerifyError
  meta_undecoded envelope_undecoded : VerifyError
  identity_mismatch markdown_mismatch envelope_mismatch : VerifyError

abbrev pub required {ℓ} : {A : Type ℓ} → VerifyError → Option A → Result VerifyError A
required e none = err e
required e (some a) = ok a

-- A report without attempt or hashes is not verified.
unfoldable pub is_legacy : Meta → Bool
is_legacy meta =
    not (is_positive meta.attempt_number) || meta.envelope_hash == "" || meta.markdown_hash == ""

module _ (codec : Codec) where
  abbrev pub meta_of : Envelope → ℤ → ℕ → Meta
  meta_of e attempt_number now = record {
    schema_version = schema_version_text;
    task_id = e.task_id;
    worker_id = e.worker_id;
    attempt_number = attempt_number;
    status = e.status;
    envelope_hash = codec.hash (codec.encode_envelope e);
    markdown_hash = codec.hash (render_markdown e);
    published_at = now;
    unverified = false;
  }

  -- What `Publish` writes, in its order.
  unfoldable pub publication : Envelope → ℤ → ℕ → List Write
  unfolding with_newline render_markdown
  publication e attempt_number now =
      envelope_write (with_newline (codec.encode_envelope e))
      ∷ meta_write (with_newline (codec.encode_meta (meta_of e attempt_number now)))
      ∷ markdown_write (render_markdown e)
      ∷ []

  -- The checks before the writes.
  unfoldable pub publishable : (String → String) → Envelope → ℤ → Result PublishError (Unit {0})
  unfolding validate_envelope
  publishable quoted e attempt_number = do
    if_valid (validate_envelope quoted e)
    fail_if (not (is_positive attempt_number)) no_attempt

  -- `Publish`, of which `count` writes succeed: the directory after it, and its answer. The first of
  -- the three writes that fails ends it with an error.
  unfoldable pub publish :
      (String → String)
      → ℕ
      → Directory
      → Envelope
      → ℤ
      → ℕ
      → Directory × Result PublishError (Unit {0})
  unfolding publishable publication perform
  publish quoted count dir e attempt_number now = elim (publishable quoted e attempt_number) [
    | err x ↦ (dir, err x)
    | ok _ ↦ (
      perform count (publication e attempt_number now) dir,
      if ltb count 3 then err write_failed else ok tt,
    )
  ]

  -- The checks of a report that has its attempt and its hashes.
  unfoldable pub verify_hashed :
      Meta → Envelope → Option String → String → Result VerifyError (Meta × Envelope)
  unfolding trim_newline
  verify_hashed meta e envelope_file markdown = do
    envelope_bytes ← required envelope_missing envelope_file
    fail_if
        (not (meta.task_id == e.task_id)
          || not (meta.worker_id == e.worker_id)
          || not (meta.status == e.status))
        identity_mismatch
    fail_if (not (codec.hash markdown == meta.markdown_hash)) markdown_mismatch
    fail_if
        (not (codec.hash (codec.encode_envelope e) == meta.envelope_hash)
          && not (codec.hash (trim_newline envelope_bytes) == meta.envelope_hash)
          && not (codec.hash envelope_bytes == meta.envelope_hash))
        envelope_mismatch
    ok (meta, e)

  unfoldable pub read_envelope : Option String → Result VerifyError Envelope
  read_envelope none = ok no_envelope
  read_envelope (some bytes) = required envelope_undecoded (codec.decode_envelope bytes)

  unfoldable pub verify_disk : Directory → Result VerifyError (Meta × Envelope)
  unfolding verify_hashed read_envelope is_legacy
  verify_disk dir = do
    meta_bytes ← required meta_missing dir.meta_file
    markdown ← required markdown_missing dir.markdown_file
    meta ← required meta_undecoded (codec.decode_meta meta_bytes)
    e ← read_envelope dir.envelope_file
    if is_legacy meta
        then ok (record meta { unverified = true }, e)
        else verify_hashed meta e dir.envelope_file markdown
