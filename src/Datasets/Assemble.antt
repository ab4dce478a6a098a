-- ===== src/Datasets/Assemble.antt =====
-- AssembleUpload and assembleInlineUpload of internal/services/dataset_upload.go.
pub mod Stores
use self_host.Prelude.{
  ℕ, ◌+◌, Bool, true, false, not, ◌&&◌, ◌||◌, Option, none, some, List, [], ◌∷◌, ◌++◌, ◌==◌,
  if◌then◌else◌, length, is_empty, Result, ok, err, fail_if,
}
use self_host.Prelude.Int.{ℤ, pos}
use self_host.Text.{Text, codes, text_eq}
use self_host.Policy.Rule.{Uuid}
use self_host.Datasets.World.{
  Bytes, Dataset, Upload, PartRow, World, UploadError, not_found, bad_digest, invalid_part,
  entity_too_large, Call, create_temp_call, read_temp_call, open_part_call, copy_part_call,
  get_object_ref_call, int32, Act, ◌>>=◌, ◌>>◌, pure, lift, reading, ignoring, call, found,
  delete_dataset_upload_by_id, find_dataset_upload_parts, set_dataset_content, remove_all,
}
use self_host.Datasets.Checks.{Digests, digest_differs, over, check_parts, completed_parts}
use self_host.Datasets.Uploads.{
  DatasetObjectRef, DatasetStorageMetadata, ObjectStore, DatasetUploadOptions, s3_store, stored,
  or_undo, upload_ref, metadata_ref, upload_dir, find_upload,
}

-- The row of the dataset with its new content.
unfoldable pub with_content : Bytes → DatasetStorageMetadata → Dataset → Dataset
with_content content m d = record d {
  content = content;
  checksum = m.checksum;
  size = int32 m.size;
  storage_backend = m.backend;
  storage_bucket = m.bucket;
  storage_key = m.key;
}

unfoldable pub inline_metadata : Digests → Bytes → DatasetStorageMetadata
inline_metadata digests content = record {
  backend = codes "inline";
  bucket = [];
  key = [];
  size = length content;
  checksum = digests.checksum_hex content;
}

-- The zero value of the row where the query fails.
abbrev pub no_object_ref : DatasetObjectRef
no_object_ref = record { backend = []; bucket = []; key = [] }

unfoldable pub object_ref_of : Option Dataset → DatasetObjectRef
object_ref_of none = no_object_ref
object_ref_of (some d) = record {
  backend = d.storage_backend;
  bucket = d.storage_bucket;
  key = d.storage_key;
}

-- `Backend == DatasetStorageBackendS3 && Bucket != "" && Key != ""`
unfoldable pub is_stored : DatasetObjectRef → Bool
is_stored r = text_eq r.backend (codes "s3") && not (is_empty r.bucket) && not (is_empty r.key)

-- The deletion of an object, whose error is not looked at.
unfoldable pub delete_stored :
    {O E : Type 0} → Option (ObjectStore O E) → Bool → DatasetObjectRef → Act O E Unit
delete_stored none condition r = pure tt
delete_stored (some store) condition r =
    if condition && is_stored r then ignoring (stored (store.delete_object r)) else pure tt

-- `if svc.opt.Store == nil { return os.RemoveAll(...) }`
unfoldable pub remove_dir :
    {O E : Type 0} → (Call → Option E) → Option (ObjectStore O E) → Text → Act O E Unit
remove_dir faults none dir = remove_all faults dir
remove_dir faults (some store) dir = pure tt

module _ {O E : Type 0} (opt : DatasetUploadOptions O E) (digests : Digests)
    (faults : Call → Option E) where
  -- GetDatasetObjectRefByUUID, whose error is not looked at
  unfoldable pub previous_ref : Uuid → Act O E DatasetObjectRef
  previous_ref dataset_uuid = reading λ w. ok (elim (faults get_object_ref_call) [
    | some e ↦ no_object_ref
    | none ↦ object_ref_of (w.datasets dataset_uuid)
  ])

  -- The loop over the parts, with what is copied so far.
  unfoldable pub copy_parts : Text → Bytes → List PartRow → Act O E Bytes
  copy_parts upload_id copied [] = pure copied
  copy_parts upload_id copied (part ∷ parts) = do
    call faults (open_part_call part.part_number)
    body ← reading (λ w. found (w.files (upload_dir opt upload_id) part.part_number) invalid_part)
    call faults (copy_part_call part.part_number)
    lift (fail_if (over opt.max_total_size (length (copied ++ body))) entity_too_large)
    copy_parts upload_id (copied ++ body) parts

  unfoldable pub assemble_inline_upload :
      Text → List PartRow → Text → Act O E (Bytes × DatasetStorageMetadata)
  assemble_inline_upload upload_id parts expected_md5 = do
    call faults create_temp_call
    content ← copy_parts upload_id [] parts
    lift (fail_if (digest_differs expected_md5 (digests.md5 content)) bad_digest)
    call faults read_temp_call
    pure (content, inline_metadata digests content)

  -- The digest of the object that the store has put together.
  unfoldable pub check_object : ObjectStore O E → DatasetStorageMetadata → Text → Act O E Unit
  check_object store m expected_md5 =
      if is_empty expected_md5
      then pure tt
      else (stored (store.get_object (metadata_ref m)) >>= λ body.
          lift (fail_if (digest_differs expected_md5 (digests.md5 body)) bad_digest))

  unfoldable pub assembled_by :
      Option (ObjectStore O E)
      → Upload
      → Text
      → List PartRow
      → Text
      → Act O E (Bytes × DatasetStorageMetadata)
  assembled_by none upload upload_id parts expected_md5 =
      assemble_inline_upload upload_id parts expected_md5
  assembled_by (some store) upload upload_id parts expected_md5 = do
    completed ← lift (completed_parts parts)
    m ←
        stored
          (store.complete_multipart_upload (upload_ref upload) upload.backend_upload_id completed)
    check_object store m expected_md5
    pure ([], m)

  -- The new content and where it is.
  unfoldable pub assembled :
      Upload → Text → List PartRow → Text → Act O E (Bytes × DatasetStorageMetadata)
  unfolding assembled_by
  assembled upload = assembled_by (s3_store opt.store upload.storage_backend) upload

  -- The UPDATE, with the deletion of the new object where it fails or finds no row.
  unfoldable pub replace_content : Uuid → Bytes → DatasetStorageMetadata → Act O E Unit
  replace_content dataset_uuid content m = do
    count ←
        or_undo (set_dataset_content faults dataset_uuid (with_content content m))
          (delete_stored opt.store true (metadata_ref m))
    or_undo (lift (fail_if (count == 0) not_found)) (delete_stored opt.store true (metadata_ref m))

  unfoldable pub assemble_upload : Uuid → Text → Text → Act O E Unit
  unfolding remove_dir
  assemble_upload dataset_uuid upload_id expected_md5 = do
    upload ← find_upload faults dataset_uuid upload_id
    previous ← previous_ref dataset_uuid
    parts ← find_dataset_upload_parts faults upload_id
    lift (fail_if (is_empty parts) invalid_part)
    lift (check_parts 1 parts)
    new ← assembled upload upload_id parts expected_md5
    replace_content dataset_uuid new.0 new.1
    delete_stored opt.store
        (not (text_eq previous.bucket (new.1).bucket) || not (text_eq previous.key (new.1).key))
        previous
    delete_dataset_upload_by_id faults upload_id
    remove_dir faults opt.store (upload_dir opt upload_id)
