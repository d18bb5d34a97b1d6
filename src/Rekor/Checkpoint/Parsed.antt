-- ===== src/Rekor/Checkpoint/Parsed.antt =====
-- What a parsed checkpoint is of the envelope that it was read from.
use attestation_verify.Prelude.{
  ℕ, ◌+◌, ◌≤◌, ◌<◌, ◌≡◌, refl, sym, ap, ap₂, ◌∙◌, subst, false, ◌&&◌, some, some_inj, List, [], ◌∷◌,
  ◌++◌, length, take, drop, length-take, length-drop, take-append_left, length-append, append_assoc,
  is_empty, keep, All, ok, ok_or, ok_or-eq-ok, map_err-eq-ok, passed, refused_not, ok_inj,
  Bool-cases, Option-cases, inl, inr, ◌==◌, ==_iff, and_true, ltb, leb, arith, suc,
}
use attestation_verify.Prelude.Text.{
  Text, contains, split_once, lines, find_blank_line, strip_prefix,
}
use attestation_verify.Prelude.Text.Pieces.{split_once_sound}
use attestation_verify.Prelude.Decimal.{parse_u64}
use attestation_verify.Errors.{from_parse}
use attestation_verify.Limits.{max_checkpoint_signatures}
use attestation_verify.Crates.{Crates}
use attestation_verify.ParseUtil.{strict_base64}
use attestation_verify.Rekor.Checkpoint.{
  CheckpointSignature, ParsedCheckpoint, parse_checkpoint, parse_signature, parse_signatures,
  next_line, is_filled, checkpoint_signature_prefix, checkpoint_key_hint_bytes,
}

find_blank_line_sound :
    (s : Text) (i : ℕ)
    → find_blank_line s ≡ some i
    → (a : Text) × (b : Text) × (s ≡ a ++ (b'\n' ∷ b'\n' ∷ b)) × (length a ≡ i)
unfolding find_blank_line
find_blank_line_sound [] i e = cc
find_blank_line_sound (x ∷ []) i e = cc
find_blank_line_sound (x ∷ y ∷ s) i e = elim (Bool-cases (x == b'\n' && y == b'\n')) [
  | inl both ↦
      let (first, second) = and_true _ _ both in
      let i_is : 0 ≡ i = some_inj (rw both at e) in
      (
        [],
        s,
        ap₂ (λ (p q : ℕ). p ∷ q ∷ s) ((==_iff x b'\n').0 first) ((==_iff y b'\n').0 second),
        i_is,
      )
  | inr other ↦ elim (Option-cases (find_blank_line (y ∷ s))) [
    | inl missing ↦ absurd (cc (rw missing at (rw other at e)))
    | inr (j, found) ↦
        let i_is : suc j ≡ i = some_inj (rw found at (rw other at e)) in
        let (a, b, whole, len) = find_blank_line_sound (y ∷ s) j found in
        (x ∷ a, b, ap (λ (t : Text). x ∷ t) whole, ap suc len ∙ i_is)
  ]
]

next_line_sound :
    (ls : List Text) {line : Text} {rest : List Text}
    → next_line ls ≡ some (line, rest)
    → ls ≡ line ∷ rest
next_line_sound [] e = absurd (cc e)
next_line_sound (l ∷ ls) e =
    let p = some_inj e in
    ap₂ ◌∷◌ (ap (λ (q : Text × List Text). q.0) p) (ap (λ (q : Text × List Text). q.1) p)

-- A signature has the whole hint, and at least one byte behind it.
abbrev pub IsSignature : CheckpointSignature → Type 0
IsSignature s = (length s.key_hint ≡ checkpoint_key_hint_bytes) × (1 ≤ length s.signature)

module _ (crates : Crates) where
  parse_signature-IsSignature :
      (line : Text) (s : CheckpointSignature) → parse_signature crates line ≡ ok s → IsSignature s
  unfolding parse_signature
  parse_signature-IsSignature line s e =
      passed (ok_or (strip_prefix line checkpoint_signature_prefix) _) _ e (λ rest stripped e.
        passed (ok_or (split_once rest b' ') _) _ e (λ (name, blob_b64) cut e.
          passed (from_parse (strict_base64 crates _ blob_b64)) _ e (λ blob decoded e.
            refused_not (leb (length blob) checkpoint_key_hint_bytes) _ _ e (λ long e.
              let long_enough : 4 < length blob = ground arith in
              subst IsSignature (ok_inj e)
                (omega (arith, length-take 4 blob), omega (arith, length-drop 4 blob))))))

  -- As many signatures as there are lines that are not empty.
  parse_signatures-length :
      (ls : List Text) (sigs : List CheckpointSignature)
      → parse_signatures crates ls ≡ ok sigs
      → (length sigs ≡ length (keep is_filled ls)) × All IsSignature sigs
  unfolding parse_signatures keep
  parse_signatures-length [] sigs e =
      subst (λ (t : List CheckpointSignature). (length t ≡ 0) × All IsSignature t) (ok_inj e)
        (refl, tt)
  parse_signatures-length ([] ∷ ls) sigs e = parse_signatures-length ls sigs e
  parse_signatures-length ((c ∷ line) ∷ ls) sigs e =
      passed (parse_signature crates (c ∷ line)) _ e (λ s one e.
        passed (parse_signatures crates ls) _ e (λ rest others e.
          let (len, all) = parse_signatures-length ls rest others in
          subst
            (λ (t : List CheckpointSignature).
              (length t ≡ suc (length (keep is_filled ls))) × All IsSignature t)
            (ok_inj e) (ap suc len, (parse_signature-IsSignature (c ∷ line) s one, all))))

  abbrev pub IsCheckpoint : Text → ParsedCheckpoint → Type 0
  IsCheckpoint envelope c =
      (body : Text) × (behind : Text) × (more : Text) × (tree_size_line : Text)
      × (root_hash_line : Text) × (extensions : List Text) × (envelope
          ≡ body ++ (b'\n' ∷ b'\n' ∷ behind))
      × (c.note_body ≡ body ++ (b'\n' ∷ []))
      × (body ≡ c.origin ++ (b'\n' ∷ more))
      × (is_empty c.origin ≡ false)
      × (contains c.origin b'\n' ≡ false)
      × (lines more ≡ tree_size_line ∷ root_hash_line ∷ extensions)
      × (parse_u64 tree_size_line ≡ some c.tree_size)
      × (crates.base64_decode root_hash_line ≡ ok c.root_hash)
      × (1 ≤ length c.signatures)
      × (length c.signatures ≤ max_checkpoint_signatures)
      × All IsSignature c.signatures

  not_empty : (sigs : List CheckpointSignature) → is_empty sigs ≡ false → 1 ≤ length sigs
  not_empty [] h = cc
  not_empty (s ∷ sigs) h = omega arith

  -- A parsed checkpoint splits its envelope at a blank line: the note is what stands in front of it,
  -- with its line break; its first line is the origin, byte for byte, and the next two give tree size
  -- and root hash. There are between 1 and 32 signatures, each with a hint of 4 bytes and more.
  pub parse_checkpoint-IsCheckpoint :
      (envelope : Text) (c : ParsedCheckpoint)
      → parse_checkpoint crates envelope ≡ ok c
      → IsCheckpoint envelope c
  unfolding parse_checkpoint
  parse_checkpoint-IsCheckpoint envelope c e =
      passed (ok_or (find_blank_line envelope) _) _ e (λ i found e.
        passed (ok_or (split_once (take i envelope) b'\n') _) _ e (λ (origin, more) cut e.
          refused_not (is_empty origin) _ _ e (λ filled e.
            passed (ok_or (next_line (lines more)) _) _ e (λ (tree_line, rest) first e.
              passed (ok_or (parse_u64 tree_line) _) _ e (λ tree_size sized e.
                passed (ok_or (next_line rest) _) _ e (λ (hash_line, extensions) second e.
                  passed (from_parse (strict_base64 crates _ hash_line)) _ e (λ root_hash hashed e.
                    refused_not
                      (ltb max_checkpoint_signatures
                        (length (keep is_filled (lines (drop (i + 2) envelope)))))
                      _ _ e
                      (λ few e.
                        passed (parse_signatures crates (lines (drop (i + 2) envelope))) _ e
                          (λ sigs signed e. refused_not (is_empty sigs) _ _ e (λ some_there e.
                            let (a, b, whole, len) =
                              find_blank_line_sound envelope i (ok_or-eq-ok _ _ found) in
                            let body_is : take i envelope ≡ a =
                              ap (take i) whole ∙ take-append_left a (b'\n' ∷ b'\n' ∷ b) i len in
                            let note_is : take (i + 1) envelope ≡ a ++ (b'\n' ∷ []) =
                              ap (take (i + 1))
                                (whole ∙ sym (append_assoc a (b'\n' ∷ []) (b'\n' ∷ b)))
                              ∙ take-append_left (a ++ (b'\n' ∷ [])) (b'\n' ∷ b) (i + 1)
                                  (omega (arith, length-append a (b'\n' ∷ []))) in
                            let (split_at, single) =
                              split_once_sound (take i envelope) b'\n' (ok_or-eq-ok _ _ cut) in
                            let (count, all) =
                              parse_signatures-length (lines (drop (i + 2) envelope)) sigs signed in
                            let bound : length sigs ≤ max_checkpoint_signatures =
                              ground (arith, count) in
                            subst (IsCheckpoint envelope) (ok_inj e) (
                              a,
                              b,
                              more,
                              tree_line,
                              hash_line,
                              extensions,
                              whole,
                              note_is,
                              sym body_is ∙ split_at,
                              filled,
                              single,
                              next_line_sound (lines more) (ok_or-eq-ok _ _ first)
                                  ∙ ap (λ (t : List Text). tree_line ∷ t)
                                      (next_line_sound rest (ok_or-eq-ok _ _ second)),
                              ok_or-eq-ok _ _ sized,
                              map_err-eq-ok _ _ (map_err-eq-ok _ _ hashed),
                              not_empty sigs some_there,
                              bound,
                              all,
                            )))))))))))
