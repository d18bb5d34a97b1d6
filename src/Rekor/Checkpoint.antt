-- ===== src/Rekor/Checkpoint.antt =====
-- src/rekor.rs, "4. Checkpoint (signed note)".
pub mod Parsed
pub mod Verified
mod Tests
use attestation_verify.Prelude.{
  ℕ, ◌+◌, Bool, true, false, ◌&&◌, ◌||◌, not, Option, some, none, List, [], ◌∷◌, ◌++◌, length, take,
  drop, is_empty, any, keep, ltb, leb, ◌==◌, if◌then◌else◌, Result, ok, err, ◌>>=◌, ◌>>◌, ok_or,
  map_ok, String,
}
use attestation_verify.Prelude.Text.{
  Bytes, Text, codes, str_eq, strip_prefix, split_once, lines, find_blank_line,
}
use attestation_verify.Prelude.Decimal.{parse_u64}
use attestation_verify.Limits.{max_checkpoint_signatures}
use attestation_verify.Errors.{
  Error, parse, checkpoint, resource_limit, too_many_checkpoint_signatures, transparency,
  checkpoint_tree_size_mismatch, checkpoint_root_hash_mismatch, checkpoint_signature_invalid,
  from_parse,
}
use attestation_verify.Crates.{Crates}
use attestation_verify.ParseUtil.{strict_base64}
use attestation_verify.Trust.{TransparencyLog}
use attestation_verify.Dsse.{Ecdsa, EcdsaVerifyingKey, verify_der}

-- U+2014 EM DASH in UTF-8, and a space.
abbrev pub checkpoint_signature_prefix : Text
checkpoint_signature_prefix = 0xE2 ∷ 0x80 ∷ 0x94 ∷ b' ' ∷ []

abbrev pub checkpoint_key_hint_bytes : ℕ
checkpoint_key_hint_bytes = 4

pub record CheckpointSignature : Type 0 where
  pub name : Text
  pub key_hint : Bytes
  pub signature : Bytes

pub record ParsedCheckpoint : Type 0 where
  pub origin : Text
  pub tree_size : ℕ
  pub root_hash : Bytes
  pub note_body : Text
  pub signatures : List CheckpointSignature

abbrev pub malformed : String → Error
malformed reason = parse (checkpoint (codes reason))

abbrev pub refuse : Bool → Error → Result (Unit {0}) Error
refuse test e = if test then err e else ok tt

-- `body_lines.next()`, with the lines that are left.
abbrev pub next_line : List Text → Option (Text × List Text)
next_line [] = none
next_line (line ∷ rest) = some (line, rest)

abbrev pub is_filled : Text → Bool
is_filled line = not (is_empty line)

module _ (crates : Crates) where
  -- One signature line.
  unfoldable pub parse_signature : Text → Result CheckpointSignature Error
  unfolding strip_prefix split_once
  parse_signature line = do
    rest ← ok_or (strip_prefix line checkpoint_signature_prefix) (
        parse (
          checkpoint (
            codes "signature line missing \""
            ++ (checkpoint_signature_prefix ++ codes "\" marker"))))
    (name, blob_b64) ←
        ok_or (split_once rest b' ') (malformed "signature line missing name/signature separator")
    blob ← from_parse (strict_base64 crates (codes "checkpoint signature line") blob_b64)
    refuse (leb (length blob) checkpoint_key_hint_bytes)
        (malformed "signature blob shorter than the 4-byte key hint")
    ok (record {
      name = name;
      key_hint = take checkpoint_key_hint_bytes blob;
      signature = drop checkpoint_key_hint_bytes blob;
    })

  -- The loop over the signature lines, which passes over the empty ones.
  unfoldable pub parse_signatures : List Text → Result (List CheckpointSignature) Error
  unfolding parse_signature
  parse_signatures [] = ok []
  parse_signatures ([] ∷ rest) = parse_signatures rest
  parse_signatures ((c ∷ line) ∷ rest) = parse_signature (c ∷ line) >>= λ signature.
      parse_signatures rest >>= λ signatures. ok (signature ∷ signatures)

  unfoldable pub parse_checkpoint : Text → Result ParsedCheckpoint Error
  unfolding find_blank_line split_once lines keep parse_u64 parse_signatures
  parse_checkpoint envelope = do
    blank_line_at ←
        ok_or (find_blank_line envelope)
          (malformed "missing blank line separating body from signatures")
    let note_body = take (blank_line_at + 1) envelope
    let body_text = take blank_line_at envelope
    let signature_text = drop (blank_line_at + 2) envelope
    (origin, body_without_origin) ←
        ok_or (split_once body_text b'\n') (malformed "missing origin line")
    refuse (is_empty origin) (malformed "missing origin line")
    (tree_size_line, body_lines) ←
        ok_or (next_line (lines body_without_origin)) (malformed "missing treeSize line")
    tree_size ←
        ok_or (parse_u64 tree_size_line) (malformed "treeSize line is not a valid unsigned integer")
    (root_hash_line, extensions) ← ok_or (next_line body_lines) (malformed "missing rootHash line")
    root_hash ← from_parse (strict_base64 crates (codes "checkpoint rootHash line") root_hash_line)
    let signature_line_count = length (keep is_filled (lines signature_text))
    refuse (ltb max_checkpoint_signatures signature_line_count) (
        resource_limit
          (too_many_checkpoint_signatures signature_line_count max_checkpoint_signatures))
    signatures ← parse_signatures (lines signature_text)
    refuse (is_empty signatures) (malformed "no signature lines found")
    ok (record {
      origin = origin;
      tree_size = tree_size;
      root_hash = root_hash;
      note_body = note_body;
      signatures = signatures;
    })

  -- The hint of a log that declares a key id for checkpoints, which may be too short for one.
  unfoldable pub checkpoint_key_hint : TransparencyLog → Option Bytes
  checkpoint_key_hint log = elim log.checkpoint_key_id [
    | some id ↦
        if ltb (length id) checkpoint_key_hint_bytes
        then none
        else some (take checkpoint_key_hint_bytes id)
    | none ↦ some (take checkpoint_key_hint_bytes (crates.digest log.public_key.raw_bytes))
  ]

abbrev pub is_name : Option Text → Text → Bool
is_name none name = false
is_name (some n) name = str_eq name n

unfoldable pub checkpoint_key_name_matches : TransparencyLog → Text → Bool
unfolding str_eq strip_prefix
checkpoint_key_name_matches log name =
    str_eq name log.base_url || is_name (strip_prefix log.base_url (codes "https://")) name

module _ (crates : Crates) (ecdsa : Ecdsa) where
  abbrev pub has_hint : Bytes → CheckpointSignature → Bool
  has_hint key_hint s = str_eq s.key_hint key_hint

  -- The two passes: the signatures under the log's own name, then the others.
  unfoldable pub any_verifies :
      List CheckpointSignature → Bytes → TransparencyLog → EcdsaVerifyingKey ecdsa → Text → Bool
  unfolding any keep str_eq checkpoint_key_name_matches verify_der
  any_verifies signatures key_hint log log_key note_body =
      let candidates = keep (has_hint key_hint) signatures in
      let named =
        keep (λ (s : CheckpointSignature). checkpoint_key_name_matches log s.name) candidates in
      let others =
        keep (λ (s : CheckpointSignature). not (checkpoint_key_name_matches log s.name))
          candidates in
      let verifies = λ (s : CheckpointSignature). verify_der ecdsa log_key note_body s.signature in
      any verifies named || any verifies others

  unfoldable pub verify_checkpoint :
      Text → ℕ → Bytes → TransparencyLog → EcdsaVerifyingKey ecdsa → Result ParsedCheckpoint Error
  unfolding parse_checkpoint str_eq checkpoint_key_hint any_verifies
  verify_checkpoint envelope proof_tree_size proof_root_hash log log_key = do
    c ← parse_checkpoint crates envelope
    refuse (not (c.tree_size == proof_tree_size)) (transparency checkpoint_tree_size_mismatch)
    refuse (not (str_eq c.root_hash proof_root_hash)) (transparency checkpoint_root_hash_mismatch)
    key_hint ← ok_or (checkpoint_key_hint crates log) (transparency checkpoint_signature_invalid)
    if any_verifies c.signatures key_hint log log_key c.note_body
        then ok c
        else err (transparency checkpoint_signature_invalid)

  -- The entry point of the fuzz target: the envelope against its own tree size and root hash.
  abbrev pub verify_checkpoint_self_anchored :
      Text → TransparencyLog → EcdsaVerifyingKey ecdsa → Result (Unit {0}) Error
  unfolding parse_checkpoint verify_checkpoint
  verify_checkpoint_self_anchored envelope log log_key = parse_checkpoint crates envelope >>= λ c.
      map_ok (verify_checkpoint envelope c.tree_size c.root_hash log log_key) (λ _. tt)
