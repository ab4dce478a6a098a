-- ===== src/Datasets/Checks.antt =====
-- The checks of internal/services/dataset_upload.go and the names of its directories: readUploadBody, safePathPart and the
-- loops of AssembleUpload over the parts. MD5 and the checksum are parameters.
pub mod Numbered
use self_host.Prelude.{
  ℕ, suc, ◌+◌, ◌*◌, ◌/◌, ◌%◌, Bool, true, not, ◌&&◌, ◌||◌, Option, none, some, List, [], ◌∷◌, ◌++◌,
  ◌==◌, leb, ltb, if◌then◌else◌, length, take, is_empty, Result, ok, err, Checked, ◌>>=◌, ◌>>◌,
  fail_if,
}
use self_host.Prelude.Int.{ℤ, pos, ltb_ℤ}
use self_host.Text.{Text, codes, text_eq}
use self_host.Datasets.World.{
  Bytes, PartRow, UploadError, part_too_large, bad_digest, invalid_part, invalid_part_order,
  entity_too_small, failed, eq_ℤ,
}

-- minUploadPartSizeBytes
abbrev pub min_upload_part_size_bytes : ℕ
min_upload_part_size_bytes = 5 * 1024 * 1024

-- The digests, in hexadecimal digits.
pub record Digests : Type 0 where
  pub md5 : Bytes → Text
  pub checksum_hex : Bytes → Text

-- The bytes that an io.Reader yields, and the error after them if it is not io.EOF.
pub record Reader (E : Type 0) : Type 0 where
  pub bytes : Bytes
  pub fault : Option E

-- The letter of a digit of base 16
hex_digit : ℕ → ℕ
hex_digit d = if ltb d 10 then 48 + d else 87 + d

-- UTF-8
utf8 : ℕ → Bytes
utf8 c =
    if ltb c 128
    then c ∷ []
    else if ltb c 2048
    then (192 + c / 64) ∷ (128 + c % 64) ∷ []
    else if ltb c 65536
    then (224 + c / 4096) ∷ (128 + c / 64 % 64) ∷ (128 + c % 64) ∷ []
    else (240 + c / 262144) ∷ (128 + c / 4096 % 64) ∷ (128 + c / 64 % 64) ∷ (128 + c % 64) ∷ []

hex_bytes : Bytes → Text
unfolding hex_digit
hex_bytes [] = []
hex_bytes (b ∷ bs) = hex_digit (b / 16) ∷ hex_digit (b % 16) ∷ hex_bytes bs

hex_of : Text → Text
unfolding hex_bytes utf8
hex_of [] = []
hex_of (c ∷ cs) = hex_bytes (utf8 c) ++ hex_of cs

-- safePathPartRegex
safe_char : ℕ → Bool
safe_char c =
    (leb 97 c && leb c 122)
    || (leb 65 c && leb c 90)
    || (leb 48 c && leb c 57)
    || c == 46
    || c == 95
    || c == 45

all_safe : Text → Bool
unfolding safe_char
all_safe [] = true
all_safe (c ∷ cs) = safe_char c && all_safe cs

unfoldable pub safe_path_part : Text → Text
unfolding all_safe hex_of
safe_path_part value =
    if is_empty value then codes "_" else if all_safe value then value else hex_of value

-- strings.ToLower on digits of base 16, which have no other letters
unfoldable pub lower_case : Text → Text
lower_case [] = []
lower_case (c ∷ cs) = (if leb 65 c && leb c 90 then c + 32 else c) ∷ lower_case cs

-- `expected != "" && !strings.EqualFold(actual, expected)`
unfoldable pub digest_differs : Text → Text → Bool
digest_differs expected actual =
    not (is_empty expected) && not (text_eq (lower_case actual) (lower_case expected))

-- `limit > 0 && size > limit`
unfoldable pub over : ℕ → ℕ → Bool
over limit size = ltb 0 limit && ltb limit size

-- io.ReadAll, of at most one byte more than the limit
unfoldable pub read_all : {E : Type 0} → ℕ → Reader E → Result (UploadError E) Bytes
read_all max_part_size r =
    if over max_part_size (length r.bytes)
    then ok (take (max_part_size + 1) r.bytes)
    else elim r.fault [ none ↦ ok r.bytes | some e ↦ err (failed e) ]

unfoldable pub read_upload_body :
    {E : Type 0} → Digests → ℕ → Reader E → Text → Result (UploadError E) (Bytes × Text)
read_upload_body digests max_part_size content expected_md5 =
    read_all max_part_size content >>= λ body.
    fail_if (over max_part_size (length body)) part_too_large
    >> fail_if (digest_differs expected_md5 (digests.md5 body)) bad_digest
    >> ok (body, lower_case (digests.md5 body))

-- The checks of the loop over the parts, from the number `n`.
unfoldable pub check_parts : {E : Type 0} → ℕ → List PartRow → Checked (UploadError E)
check_parts n [] = ok tt
check_parts n (p ∷ ps) =
    fail_if (not (eq_ℤ p.part_number (pos n))) invalid_part_order
    >> fail_if (not (is_empty ps) && ltb_ℤ p.size (pos min_upload_part_size_bytes)) entity_too_small
    >> check_parts (suc n) ps

-- The parts with their tags for the store.
unfoldable pub completed_parts :
    {E : Type 0} → List PartRow → Result (UploadError E) (List (ℤ × Text))
completed_parts [] = ok []
completed_parts (p ∷ ps) = fail_if (is_empty p.etag) invalid_part >> completed_parts ps >>= λ rest.
    ok ((p.part_number, p.etag) ∷ rest)
