-- ===== src/Datasets/World.antt =====
-- What the uploads of datasets work on: the tables datasets, dataset_uploads and dataset_upload_parts, the files of the parts
-- and an object store. The queries are those of postgres/queries/dataset_uploads.sql and datasets.sql; a text column that
-- is NULL is the empty text. Any call may fail: `faults` says which, and a call that fails changes nothing.
use self_host.Prelude.{
  ℕ, ◌-◌, ◌%◌, Bool, false, Option, none, some, List, [], ◌∷◌, ◌==◌, if◌then◌else◌, ltb, Result, ok,
  err, not, ◌||◌, fail_if,
}
use self_host.Prelude.Int.{ℤ, pos, negsuc, ltb_ℤ}
use self_host.Text.{Text, text_eq}
use self_host.Policy.Rule.{Uuid}

abbrev pub Bytes : Type 0
Bytes = List ℕ

pub record Dataset : Type 0 where
  pub format : Text
  pub content : Bytes
  pub checksum : Text
  pub size : ℤ
  pub storage_backend : Text
  pub storage_bucket : Text
  pub storage_key : Text

pub record Upload : Type 0 where
  pub dataset_uuid : Uuid
  pub created_by : Uuid
  pub storage_backend : Text
  pub storage_bucket : Text
  pub storage_key : Text
  pub backend_upload_id : Text

pub record PartRow : Type 0 where
  pub part_number : ℤ
  pub size : ℤ
  pub checksum_md5 : Text
  pub etag : Text

-- `O` is the state of the object store.
pub record World (O : Type 0) : Type 0 where
  pub datasets : Uuid → Option Dataset
  pub uploads : Text → Option Upload
  -- In the order of their numbers.
  pub parts : Text → List PartRow
  -- The files of the parts by directory and number.
  pub files : Text → ℤ → Option Bytes
  pub objects : O

pub data UploadError (E : Type 0) : Type 0 where
  not_found : UploadError E
  no_rows : UploadError E
  duplicate_upload : UploadError E
  check_violation : UploadError E
  part_too_large : UploadError E
  bad_digest : UploadError E
  invalid_part : UploadError E
  invalid_part_order : UploadError E
  entity_too_small : UploadError E
  entity_too_large : UploadError E
  failed : E → UploadError E

-- The calls that may fail.
pub data Call : Type 0 where
  find_dataset_call get_object_ref_call update_dataset_call : Call
  create_upload_call find_upload_call delete_upload_call upsert_part_call find_parts_call : Call
  mkdir_call remove_all_call write_file_call create_temp_call read_temp_call : Call
  open_part_call copy_part_call : ℤ → Call

-- int32 of an int that is not negative
unfoldable pub int32 : ℕ → ℤ
int32 n =
    if ltb (n % 4294967296) 2147483648
    then pos (n % 4294967296)
    else negsuc (4294967295 - n % 4294967296)

unfoldable pub eq_ℤ : ℤ → ℤ → Bool
eq_ℤ (pos m) (pos n) = m == n
eq_ℤ (negsuc m) (negsuc n) = m == n
eq_ℤ _ _ = false

-- An operation: its result, and the world after it.
abbrev pub Act : Type 0 → Type 0 → Type 0 → Type 0
Act O E A = World O → Result (UploadError E) A × World O

module _ {O E A B : Type 0} where
  unfoldable pub continue :
      (A → Act O E B) → Result (UploadError E) A × World O → Result (UploadError E) B × World O
  continue f (ok a, w) = f a w
  continue f (err e, w) = (err e, w)

  infixl 5 ◌>>=◌ ◌>>◌
  unfoldable pub ◌>>=◌ : Act O E A → (A → Act O E B) → Act O E B
  unfolding continue
  ◌>>=◌ m f w = continue f (m w)

  abbrev pub ◌>>◌ : Act O E A → Act O E B → Act O E B
  m >> n = m >>= λ _. n

module _ {O E A : Type 0} where
  unfoldable pub pure : A → Act O E A
  pure a w = (ok a, w)

  unfoldable pub lift : Result (UploadError E) A → Act O E A
  lift r w = (r, w)

  unfoldable pub reading : (World O → Result (UploadError E) A) → Act O E A
  reading f w = (f w, w)

unfoldable pub fault_of : {E : Type 0} → Option E → Result (UploadError E) Unit
fault_of none = ok tt
fault_of (some e) = err (failed e)

module _ {O E : Type 0} where
  unfoldable pub changing : (World O → World O) → Act O E Unit
  changing f w = (ok tt, f w)

  -- `_ = call(...)`
  unfoldable pub ignoring : {A : Type 0} → Act O E A → Act O E Unit
  ignoring m w = (ok tt, (m w).1)

  unfoldable pub call : (Call → Option E) → Call → Act O E Unit
  unfolding fault_of
  call faults c w = (fault_of (faults c), w)

module _ {O E : Type 0} where
  -- os.Remove, whose error is not looked at
  unfoldable pub remove_file : Text → ℤ → Act O E Unit
  remove_file dir number = changing λ w. record w {
    files =
        λ d k. if text_eq dir d then (if eq_ℤ number k then none else w.files d k) else w.files d k;
  }

unfoldable pub found : {E A : Type 0} → Option A → UploadError E → Result (UploadError E) A
found (some a) e = ok a
found none e = err e

-- The rows with a key.
unfoldable pub row_count : {A : Type 0} → Option A → ℕ
row_count none = 0
row_count (some a) = 1

-- An INSERT needs a new key.
unfoldable pub absent : {E A : Type 0} → Option A → UploadError E → Result (UploadError E) Unit
absent none e = ok tt
absent (some a) e = err e

-- A row in its place, in that of the row with its number where there is one.
unfoldable pub put_part : PartRow → List PartRow → List PartRow
put_part r [] = r ∷ []
put_part r (p ∷ ps) =
    let rest = put_part r ps in
    if ltb_ℤ p.part_number r.part_number
    then p ∷ rest
    else if ltb_ℤ r.part_number p.part_number
    then r ∷ p ∷ ps
    else r ∷ ps

abbrev pub map_option : {A : Type 0} → (A → A) → Option A → Option A
map_option f none = none
map_option f (some a) = some (f a)

module _ {O E : Type 0} (faults : Call → Option E) where
  unfoldable pub find_dataset_by_uuid : Uuid → Act O E Dataset
  find_dataset_by_uuid id =
      call faults find_dataset_call >>= λ _. reading λ w. found (w.datasets id) no_rows

  unfoldable pub create_dataset_upload : Text → Upload → Act O E Unit
  create_dataset_upload id u = call faults create_upload_call >>= λ _.
      reading (λ w. absent (w.uploads id) duplicate_upload) >>= λ _.
      changing λ w. record w { uploads = λ k. if text_eq id k then some u else w.uploads k }

  unfoldable pub find_dataset_upload_by_id : Text → Act O E Upload
  find_dataset_upload_by_id id =
      call faults find_upload_call >>= λ _. reading λ w. found (w.uploads id) no_rows

  -- The rows of its parts go with it.
  unfoldable pub delete_dataset_upload_by_id : Text → Act O E ℕ
  delete_dataset_upload_by_id id = call faults delete_upload_call >>= λ _.
      reading (λ w. ok (row_count (w.uploads id))) >>= λ count.
      changing (λ w. record w {
        uploads = λ k. if text_eq id k then none else w.uploads k;
        parts = λ k. if text_eq id k then [] else w.parts k;
      })
      >>= λ _. pure count

  unfoldable pub upsert_dataset_upload_part : Text → PartRow → Act O E Unit
  upsert_dataset_upload_part id row = call faults upsert_part_call >>= λ _.
      lift (fail_if (not (ltb_ℤ (pos 0) row.part_number) || ltb_ℤ row.size (pos 0)) check_violation)
      >>= λ _. changing λ w. record w {
        parts = λ k. if text_eq id k then put_part row (w.parts k) else w.parts k;
      }

  unfoldable pub find_dataset_upload_parts : Text → Act O E (List PartRow)
  find_dataset_upload_parts id = call faults find_parts_call >>= λ _. reading λ w. ok (w.parts id)

  -- UpdateDatasetByUUID with SetContent alone: the rows changed.
  unfoldable pub set_dataset_content : Uuid → (Dataset → Dataset) → Act O E ℕ
  set_dataset_content id change = call faults update_dataset_call >>= λ _.
      reading (λ w. ok (row_count (w.datasets id))) >>= λ count.
      changing (λ w. record w {
        datasets = λ k. if id == k then map_option change (w.datasets k) else w.datasets k;
      })
      >>= λ _. pure count

  -- os.WriteFile of a part
  unfoldable pub write_file : Text → ℤ → Bytes → Act O E Unit
  write_file dir number body = call faults write_file_call >>= λ _. changing λ w. record w {
    files = λ d k.
        if text_eq dir d then (if eq_ℤ number k then some body else w.files d k) else w.files d k;
  }

  unfoldable pub remove_all : Text → Act O E Unit
  remove_all dir = call faults remove_all_call >>= λ _.
      changing λ w. record w { files = λ d k. if text_eq dir d then none else w.files d k }
