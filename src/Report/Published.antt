-- ===== src/Report/Published.antt =====
-- internal/report/envelope.go: what `VerifyDiskArtifacts` says of the files that `Publish` writes.
use subagent_broker.Common.{
  ℕ, zero, suc, nat_eq, String, Bool, true, false, some, ◌≡◌, ◌≢◌, refl, sym, ap, ◌∙◌, not,
  string_eq, String-discrete, ◌⊎◌, inl, inr, ok, is_ok, Result, Result-cases, ltb, subst, >>-eq-ok,
  fail_if-eq-ok, arith,
}
use subagent_broker.Attempts.Types.{ℤ}
use subagent_broker.Report.Types.{Envelope, envelope_status_eq}
use subagent_broker.Report.Validate.{validate_envelope}
use subagent_broker.Report.Markdown.{render_markdown}
use subagent_broker.Report.Disk.{
  Codec, Directory, written, perform, is_positive, with_newline, trim_newline, meta_of, publication,
  publish, publishable, PublishError, if_valid, verify_hashed, read_envelope, is_legacy,
  verify_disk,
}

trim_newline-with_newline : (text : String) → trim_newline (with_newline text) ≡ text
unfolding trim_newline with_newline
trim_newline-with_newline String.[] = ground (arith)
trim_newline-with_newline (String.◌∷◌ c String.[]) = ground (arith)
trim_newline-with_newline (String.◌∷◌ c (String.◌∷◌ d s)) =
    ap (String.◌∷◌ c) (trim_newline-with_newline (String.◌∷◌ d s))

publishable-eq-ok :
    (codec : Codec) (quoted : String → String) (e : Envelope) (number : ℤ)
    → publishable codec quoted e number ≡ ok tt
    → is_positive number ≡ true
unfolding publishable
publishable-eq-ok codec quoted e number h =
    let (valid, h1) = >>-eq-ok (if_valid (validate_envelope quoted e)) _ h in
    ground (arith, fail_if-eq-ok (not (is_positive number)) _ h1)

-- A publication fails before its writes, or it has an attempt and makes them.
publish-cases :
    (codec : Codec) (quoted : String → String) (count : ℕ) (dir next : Directory) (e : Envelope)
    (number : ℤ) (now : ℕ) (answer : Result PublishError (Unit {0}))
    → publish codec quoted count dir e number now ≡ (next, answer)
    → ((next ≡ dir) × (is_ok answer ≡ false))
      ⊎ ((is_positive number ≡ true)
          × (next ≡ perform count (publication codec e number now) dir)
          × (is_ok answer ≡ not (ltb count 3)))
unfolding publish
publish-cases codec quoted count dir next e number now answer h =
    elim (Result-cases (publishable codec quoted e number)) [
      | inl (done, p) ↦
          let numbered = publishable-eq-ok codec quoted e number p in ground (arith, h, p, numbered)
      | inr (x, p) ↦ ground (arith, h, p)
    ]

-- What the theorems suppose of sha256 and encoding/json: a hash is not empty, and what was written of
-- an envelope and of its meta reads back.
pub record ReadsBack (codec : Codec) (e : Envelope) (number : ℤ) (now : ℕ) : Type 0 where
  pub envelope_reads : codec.decode_envelope (with_newline (codec.encode_envelope e)) ≡ some e
  pub meta_reads :
      codec.decode_meta (with_newline (codec.encode_meta (meta_of codec e number now)))
      ≡ some (meta_of codec e number now)
  pub hashed : (text : String) → codec.hash text ≢ ""

is_legacy-meta_of :
    (codec : Codec) (e : Envelope) (number : ℤ) (now : ℕ)
    → ((text : String) → codec.hash text ≢ "")
    → is_positive number ≡ true
    → is_legacy (meta_of codec e number now) ≡ false
unfolding is_legacy
is_legacy-meta_of codec e number now hashed numbered =
    ground (arith, hashed (codec.encode_envelope e), hashed (render_markdown e), numbered)

-- The files of one whole publication.
abbrev pub whole : (codec : Codec) → Envelope → ℤ → ℕ → Directory
whole codec e number now = record {
  envelope_file = some (with_newline (codec.encode_envelope e));
  meta_file = some (with_newline (codec.encode_meta (meta_of codec e number now)));
  markdown_file = some (render_markdown e);
}

verify_disk-whole :
    (codec : Codec) (e : Envelope) (number : ℤ) (now : ℕ)
    → ReadsBack codec e number now
    → is_positive number ≡ true
    → verify_disk codec (whole codec e number now) ≡ ok (meta_of codec e number now, e)
unfolding verify_disk read_envelope verify_hashed
verify_disk-whole codec e number now law numbered =
    rw
      (law.meta_reads, law.envelope_reads, is_legacy-meta_of codec e number now law.hashed numbered)
      (ground (arith))

-- After three writes the directory is whole.
perform-whole :
    (codec : Codec) (count : ℕ) (dir : Directory) (e : Envelope) (number : ℤ) (now : ℕ)
    → ltb count 3 ≡ false
    → perform count (publication codec e number now) dir ≡ whole codec e number now
unfolding publication perform written
perform-whole codec zero dir e number now h = ground (arith, h)
perform-whole codec (suc zero) dir e number now h = ground (arith, h)
perform-whole codec (suc (suc zero)) dir e number now h = ground (arith, h)
perform-whole codec (suc (suc (suc count))) dir e number now h = refl

-- A report that is published without an error is verified, as the envelope and the meta that were
-- published, whatever the directory held before. No hash is empty, and the envelope and the meta read
-- back.
pub verify_disk-publish :
    (codec : Codec) (quoted : String → String) (count : ℕ) (dir next : Directory) (e : Envelope)
    (number : ℤ) (now : ℕ)
    → ReadsBack codec e number now
    → publish codec quoted count dir e number now ≡ (next, ok tt)
    → verify_disk codec next ≡ ok (meta_of codec e number now, e)
verify_disk-publish codec quoted count dir next e number now law h =
    elim (publish-cases codec quoted count dir next e number now (ok tt) h) [
      | inl (same, failed) ↦ cc failed
      | inr (numbered, done, finished) ↦
          ap (verify_disk codec)
            (done ∙ perform-whole codec count dir e number now (ground (arith, finished)))
          ∙ verify_disk-whole codec e number now law numbered
    ]

-- The new envelope under the old meta.
verify_disk-first :
    (codec : Codec) (old new : Envelope) (number : ℤ) (before : ℕ)
    → ReadsBack codec old number before
    → codec.decode_envelope (with_newline (codec.encode_envelope new)) ≡ some new
    → is_positive number ≡ true
    → codec.hash (codec.encode_envelope new) ≢ codec.hash (codec.encode_envelope old)
    → codec.hash (with_newline (codec.encode_envelope new)) ≢ codec.hash (codec.encode_envelope old)
    → is_ok (
        verify_disk codec (record (whole codec old number before) {
          envelope_file = some (with_newline (codec.encode_envelope new));
        }))
      ≡ false
unfolding verify_disk read_envelope verify_hashed
verify_disk-first codec old new number before law reads numbered apart apart_line =
    rw
      (
        law.meta_reads,
        reads,
        is_legacy-meta_of codec old number before law.hashed numbered,
        trim_newline-with_newline (codec.encode_envelope new),
      )
      (ground (arith, apart, apart_line))

-- The files of a whole publication with another report.md.
abbrev pub under_markdown : (codec : Codec) → Envelope → ℤ → ℕ → String → Directory
under_markdown codec e number now markdown = record (whole codec e number now) {
  markdown_file = some markdown;
}

-- The old markdown under the new envelope and the new meta: it verifies where its hash is that of the
-- new markdown, and nowhere else.
verify_disk-same :
    (codec : Codec) (new : Envelope) (number : ℤ) (now : ℕ) (markdown : String)
    → ReadsBack codec new number now
    → is_positive number ≡ true
    → codec.hash markdown ≡ codec.hash (render_markdown new)
    → verify_disk codec (under_markdown codec new number now markdown)
      ≡ ok (meta_of codec new number now, new)
unfolding verify_disk read_envelope verify_hashed
verify_disk-same codec new number now markdown law numbered same =
    rw
      (
        law.meta_reads,
        law.envelope_reads,
        is_legacy-meta_of codec new number now law.hashed numbered,
      )
      (ground (arith, same))

verify_disk-torn :
    (codec : Codec) (new : Envelope) (number : ℤ) (now : ℕ) (markdown : String)
    → ReadsBack codec new number now
    → is_positive number ≡ true
    → codec.hash markdown ≢ codec.hash (render_markdown new)
    → is_ok (verify_disk codec (under_markdown codec new number now markdown)) ≡ false
unfolding verify_disk read_envelope verify_hashed
verify_disk-torn codec new number now markdown law numbered apart =
    rw
      (
        law.meta_reads,
        law.envelope_reads,
        is_legacy-meta_of codec new number now law.hashed numbered,
      )
      (ground (arith, apart))

-- What a publication over an earlier one leaves, by whether it answers without an error: the earlier
-- report, files that do not verify, the new report but for a report.md with the hash of the new one, or
-- the new report.
abbrev pub AtomicOutcome :
    (codec : Codec) → Envelope → ℤ → ℕ → Envelope → ℤ → ℕ → Bool → Directory → Type 0
AtomicOutcome codec old old_number before new number now done dir =
    ((done ≡ false)
      × (dir ≡ whole codec old old_number before)
      × (verify_disk codec dir ≡ ok (meta_of codec old old_number before, old)))
    ⊎ ((done ≡ false) × (is_ok (verify_disk codec dir) ≡ false))
    ⊎ ((done ≡ false)
        × (markdown : String) × (dir ≡ under_markdown codec new number now markdown)
        × (codec.hash markdown ≡ codec.hash (render_markdown new))
        × (verify_disk codec dir ≡ ok (meta_of codec new number now, new)))
    ⊎ ((done ≡ true)
        × (dir ≡ whole codec new number now)
        × (verify_disk codec dir ≡ ok (meta_of codec new number now, new)))

-- A publication over an earlier one, which fails before its writes or is stopped after any of them.
-- With an error the files are those of the earlier report, and verify as it, or they do not verify, or
-- all are the new report's but for a report.md with the hash of the new one, and verify as the new
-- report; without an error they are all the new report's, and verify as it. No hash is empty, both
-- reports read back, and the earlier one has an attempt. The hash of the new envelope, with a newline
-- or without, is not that of the earlier one.
pub publish_atomically :
    (codec : Codec) (quoted : String → String) (count : ℕ) (next : Directory) (old : Envelope)
    (old_number : ℤ) (before : ℕ) (new : Envelope) (number : ℤ) (now : ℕ)
    (answer : Result PublishError (Unit {0}))
    → ReadsBack codec old old_number before
    → ReadsBack codec new number now
    → is_positive old_number ≡ true
    → codec.hash (codec.encode_envelope new) ≢ codec.hash (codec.encode_envelope old)
    → codec.hash (with_newline (codec.encode_envelope new)) ≢ codec.hash (codec.encode_envelope old)
    → publish codec quoted count (whole codec old old_number before) new number now ≡ (next, answer)
    → AtomicOutcome codec old old_number before new number now (is_ok answer) next
unfolding perform publication written
publish_atomically codec quoted count next old old_number before new number now answer law_old
      law_new old_numbered apart apart_line h =
    elim (publish-cases codec quoted count (whole codec old old_number before) next new number now
      answer h) [
        | inl (same, failed) ↦ inl (failed, same, ap (verify_disk codec) same ∙ kept)
        | inr (numbered, done, finished) ↦
            subst (λ b. Sound b next) (sym finished)
              (subst (Sound (not (ltb count 3))) (sym done) (stopped count numbered))
      ]
  where
    kept :
        verify_disk codec (whole codec old old_number before)
        ≡ ok (meta_of codec old old_number before, old)
    kept = verify_disk-whole codec old old_number before law_old old_numbered

    Sound : Bool → Directory → Type 0
    Sound = AtomicOutcome codec old old_number before new number now

    stopped :
        (count : ℕ)
        → is_positive number ≡ true
        → Sound
            (not (ltb count 3))
            (perform count (publication codec new number now) (whole codec old old_number before))
    stopped zero numbered = inl (refl, refl, kept)
    stopped (suc zero) numbered = inr (
        inl (
          refl,
          verify_disk-first codec old new old_number before law_old law_new.envelope_reads
              old_numbered apart apart_line,
        ))
    stopped (suc (suc zero)) numbered =
        elim (String-discrete (codec.hash (render_markdown old))
          (codec.hash (render_markdown new))) [
            | yes same ↦ inr (
                inr (
                  inl (
                    refl,
                    render_markdown old,
                    refl,
                    same,
                    verify_disk-same codec new number now (render_markdown old) law_new numbered
                        same,
                  )))
            | no other ↦ inr (
                inl (
                  refl,
                  verify_disk-torn codec new number now (render_markdown old) law_new numbered
                      other,
                ))
          ]
    stopped (suc (suc (suc count))) numbered =
        inr (
          inr (inr (ground (arith), refl, verify_disk-whole codec new number now law_new numbered)))
