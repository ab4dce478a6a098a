-- ===== src/Datasets/RoundTrip.antt =====
-- Chunks uploaded as parts and put together again, by a service without an object store where no call fails.
pub mod Stored
use self_host.Prelude.{
  ℕ, suc, ◌+◌, ◌*◌, ◌<◌, ◌≤◌, ◌≡◌, refl, sym, ap, ap₂, subst, ◌∙◌, Bool, true, false, not, ◌&&◌,
  ◌||◌, Option, none, some, List, [], ◌∷◌, ◌++◌, ◌==◌, ltb, leb, if◌then◌else◌, length, take,
  is_empty, Result, ok, err, fail_if, All, arith,
}
use self_host.Prelude.Int.{ℤ, pos, negsuc, ltb_ℤ}
use mathlib.Core.List.{append-nil, append_assoc}
use self_host.Text.{Text, codes, text_eq}
use self_host.Text.Laws.{text_eq_refl}
use self_host.Policy.Rule.{Uuid}
use self_host.Datasets.World.{
  Bytes, Dataset, Upload, PartRow, World, UploadError, Call, Act, ◌>>=◌, ◌>>◌, continue, pure, lift,
  reading, changing, call, fault_of, found, int32, eq_ℤ, put_part, find_dataset_upload_by_id,
  upsert_dataset_upload_part, write_file,
}
use self_host.Datasets.Checks.{
  Digests, Reader, over, read_all, read_upload_body, digest_differs, lower_case, check_parts,
  min_upload_part_size_bytes,
}
use self_host.Datasets.Assemble.Stores.{joined, joined_cons}
use self_host.Datasets.Uploads.{
  DatasetUploadOptions, s3_store, or_undo, undo_after, upload_dir, find_upload, upload_part,
}

abbrev pub no_faults : {E : Type 0} → Call → Option E
no_faults c = none

-- A service without an object store.
abbrev pub inline : {O E : Type 0} → DatasetUploadOptions O E → DatasetUploadOptions O E
inline opt = record opt { store = none }

abbrev pub whole : {E : Type 0} → Bytes → Reader E
whole c = record { bytes = c; fault = none }

unfoldable pub concat : List Bytes → Bytes
concat [] = []
concat (c ∷ cs) = c ++ concat cs

-- Chunks that the service takes: each but the last has the least size of a part.
unfoldable pub IsChunked : ℕ → List Bytes → Type 0
IsChunked max [] = Unit
IsChunked max (c ∷ cs) =
    (length c < 2147483648)
    × (over max (length c) ≡ false)
    × ((is_empty cs || leb min_upload_part_size_bytes (length c)) ≡ true)
    × IsChunked max cs

int32_small : (n : ℕ) → n < 2147483648 → int32 n ≡ pos n
unfolding int32
int32_small n h = ground arith

-- The row of a chunk.
unfoldable pub row : Digests → ℕ → Bytes → PartRow
row digests n c = record {
  part_number = pos n;
  size = pos (length c);
  checksum_md5 = lower_case (digests.md5 c);
  etag = [];
}

unfoldable pub rows : Digests → ℕ → List Bytes → List PartRow
unfolding row
rows digests n [] = []
rows digests n (c ∷ cs) = row digests n c ∷ rows digests (suc n) cs

read_upload_body-whole :
    {E : Type 0} (digests : Digests) (max : ℕ) (c : Bytes)
    → over max (length c) ≡ false
    → read_upload_body {E = E} digests max (whole c) [] ≡ ok (c, lower_case (digests.md5 c))
unfolding read_upload_body read_all digest_differs
read_upload_body-whole digests max c h = rw h (rw h refl)

positive : (n : ℕ) → 0 < n → ltb_ℤ (pos 0) (pos n) ≡ true
positive n h = ground arith

not_negative : (n : ℕ) → ltb_ℤ (pos n) (pos 0) ≡ false
not_negative n = ground arith

not_same : (n k : ℕ) → k < n → (n == k) ≡ false
not_same n k h = ground arith

same : (n : ℕ) → (n == n) ≡ true
same n = ground arith

put_part-last :
    (r : PartRow) (n : ℕ) (ps : List PartRow)
    → r.part_number ≡ pos n
    → All (λ p. ltb_ℤ p.part_number (pos n) ≡ true) ps
    → put_part r ps ≡ ps ++ r ∷ []
unfolding put_part
put_part-last r n [] e h = refl
put_part-last r n (p ∷ ps) e (l, h) =
    rw (subst (λ k. ltb_ℤ p.part_number k ≡ true) (sym e) l)
      (ap (λ rest. p ∷ rest) (put_part-last r n ps e h))

below_next : (x : ℤ) (n : ℕ) → ltb_ℤ x (pos n) ≡ true → ltb_ℤ x (pos (suc n)) ≡ true
below_next (pos m) n h = ground arith
below_next (negsuc m) n h = ground arith

below_self : (n : ℕ) → ltb_ℤ (pos n) (pos (suc n)) ≡ true
below_self n = ground arith

All-next :
    (n : ℕ) (ps : List PartRow) (r : PartRow)
    → r.part_number ≡ pos n
    → All (λ p. ltb_ℤ p.part_number (pos n) ≡ true) ps
    → All (λ p. ltb_ℤ p.part_number (pos (suc n)) ≡ true) (ps ++ r ∷ [])
All-next n [] r e h = (subst (λ k. ltb_ℤ k (pos (suc n)) ≡ true) (sym e) (below_self n), tt)
All-next n (p ∷ ps) r e (l, h) = (below_next p.part_number n l, All-next n ps r e h)

big_enough :
    (digests : Digests) (n : ℕ) (c : Bytes) (cs : List Bytes)
    → (is_empty cs || leb min_upload_part_size_bytes (length c)) ≡ true
    → (not (is_empty (rows digests n cs))
        && ltb_ℤ (pos (length c)) (pos min_upload_part_size_bytes))
      ≡ false
unfolding rows
big_enough digests n c [] s = refl
big_enough digests n c (d ∷ cs) s = ground (arith, s)

pub check_parts-rows :
    {E : Type 0} (digests : Digests) (max n : ℕ) (cs : List Bytes)
    → IsChunked max cs
    → check_parts {E = E} n (rows digests n cs) ≡ ok tt
unfolding check_parts rows row IsChunked eq_ℤ
check_parts-rows digests max n [] h = refl
check_parts-rows digests max n (c ∷ cs) (m, o, s, h) =
    rw (same n) (rw (big_enough digests (suc n) c cs s) (check_parts-rows digests max (suc n) cs h))

module _ {O E : Type 0} (opt : DatasetUploadOptions O E) (digests : Digests) (dataset_uuid : Uuid)
    (upload_id : Text) where
  unfoldable pub upload_chunks : ℕ → List Bytes → Act O E Unit
  upload_chunks n [] = pure tt
  upload_chunks n (c ∷ cs) =
      upload_part (inline opt) digests no_faults dataset_uuid upload_id n [] (whole c)
      >> upload_chunks (suc n) cs

  -- The world with the part `n`.
  unfoldable pub with_part : ℕ → Bytes → World O → World O
  unfolding row
  with_part n c w = record w {
    files = λ d k.
        if text_eq (upload_dir (inline opt) upload_id) d
        then (if eq_ℤ (pos n) k then some c else w.files d k)
        else w.files d k;
    parts = λ k. if text_eq upload_id k then put_part (row digests n c) (w.parts k) else w.parts k;
  }

  upload_part-with_part :
      (n : ℕ) (c : Bytes) (w : World O) (u : Upload)
      → w.uploads upload_id ≡ some u
      → (u.dataset_uuid == dataset_uuid) ≡ true
      → 0 < n
      → n < 2147483648
      → length c < 2147483648
      → over opt.max_part_size (length c) ≡ false
      → upload_part (inline opt) digests no_faults dataset_uuid upload_id n [] (whole c) w
        ≡ (ok tt, with_part n c w)
  unfolding upload_part find_upload find_dataset_upload_by_id s3_store write_file or_undo undo_after
      upsert_dataset_upload_part call fault_of reading changing lift found pure ◌>>=◌ continue
      with_part row
  upload_part-with_part n c w u f d p l m o = rw f (
      rw d (
        rw (read_upload_body-whole digests opt.max_part_size c o) (
          rw (int32_small n l) (
            rw (int32_small (length c) m)
              (rw (positive n p) (rw (not_negative (length c)) refl))))))

  unfoldable pub with_parts : ℕ → List Bytes → World O → World O
  unfolding with_part
  with_parts n [] w = w
  with_parts n (c ∷ cs) w = with_parts (suc n) cs (with_part n c w)

  pub upload_chunks-with_parts :
      (n : ℕ) (cs : List Bytes) (w : World O) (u : Upload)
      → w.uploads upload_id ≡ some u
      → (u.dataset_uuid == dataset_uuid) ≡ true
      → 0 < n
      → n + length cs < 2147483648
      → IsChunked opt.max_part_size cs
      → upload_chunks n cs w ≡ (ok tt, with_parts n cs w)
  unfolding upload_chunks with_parts IsChunked ◌>>=◌ continue pure with_part
  upload_chunks-with_parts n [] w u f d p l h = refl
  upload_chunks-with_parts n (c ∷ cs) w u f d p l (m, o, s, h) =
      rw (upload_part-with_part n c w u f d p (omega arith) m o)
        (upload_chunks-with_parts (suc n) cs (with_part n c w) u f d (omega arith) (omega arith) h)

  pub with_parts-uploads :
      (n : ℕ) (cs : List Bytes) (w : World O) → (with_parts n cs w).uploads ≡ w.uploads
  unfolding with_parts with_part
  with_parts-uploads n [] w = refl
  with_parts-uploads n (c ∷ cs) w = with_parts-uploads (suc n) cs (with_part n c w)

  pub with_parts-datasets :
      (n : ℕ) (cs : List Bytes) (w : World O) → (with_parts n cs w).datasets ≡ w.datasets
  unfolding with_parts with_part
  with_parts-datasets n [] w = refl
  with_parts-datasets n (c ∷ cs) w = with_parts-datasets (suc n) cs (with_part n c w)

  with_parts-files :
      (n k : ℕ) (cs : List Bytes) (w : World O)
      → k < n
      → (with_parts n cs w).files (upload_dir (inline opt) upload_id) (pos k)
        ≡ w.files (upload_dir (inline opt) upload_id) (pos k)
  unfolding with_parts with_part eq_ℤ
  with_parts-files n k [] w h = refl
  with_parts-files n k (c ∷ cs) w h =
      with_parts-files (suc n) k cs (with_part n c w) (omega arith)
      ∙ rw (text_eq_refl (upload_dir (inline opt) upload_id)) (rw (not_same n k h) refl)

  written :
      (n : ℕ) (c : Bytes) (w : World O)
      → (with_part n c w).files (upload_dir (inline opt) upload_id) (pos n) ≡ some c
  unfolding with_part eq_ℤ
  written n c w = rw (text_eq_refl (upload_dir (inline opt) upload_id)) (rw (same n) refl)

  pub joined-with_parts :
      (n : ℕ) (cs : List Bytes) (w : World O)
      → joined (with_parts n cs w) (upload_dir (inline opt) upload_id) (rows digests n cs)
        ≡ some (concat cs)
  unfolding with_parts rows concat row joined
  joined-with_parts n [] w = refl
  joined-with_parts n (c ∷ cs) w =
      joined_cons (with_parts (suc n) cs (with_part n c w)) _ (row digests n c)
        (rows digests (suc n) cs)
        (with_parts-files (suc n) n cs (with_part n c w) (omega arith) ∙ written n c w)
        (joined-with_parts (suc n) cs (with_part n c w))

  parts-with_part :
      (n : ℕ) (c : Bytes) (w : World O)
      → All (λ p. ltb_ℤ p.part_number (pos n) ≡ true) (w.parts upload_id)
      → (with_part n c w).parts upload_id ≡ w.parts upload_id ++ row digests n c ∷ []
  unfolding with_part row
  parts-with_part n c w h =
      rw (text_eq_refl upload_id) (put_part-last (row digests n c) n (w.parts upload_id) refl h)

  pub with_parts-parts :
      (n : ℕ) (cs : List Bytes) (w : World O)
      → All (λ p. ltb_ℤ p.part_number (pos n) ≡ true) (w.parts upload_id)
      → (with_parts n cs w).parts upload_id ≡ w.parts upload_id ++ rows digests n cs
  unfolding with_parts with_part rows
  with_parts-parts n [] w h = sym (append-nil (w.parts upload_id))
  with_parts-parts n (c ∷ cs) w h =
      let e = parts-with_part n c w h in
      with_parts-parts (suc n) cs (with_part n c w) (
        subst (All (λ p. ltb_ℤ p.part_number (pos (suc n)) ≡ true)) (sym e)
          (All-next n (w.parts upload_id) (row digests n c) refl h))
      ∙ ap (λ ps. ps ++ rows digests (suc n) cs) e
      ∙ append_assoc (w.parts upload_id) (row digests n c ∷ []) (rows digests (suc n) cs)
