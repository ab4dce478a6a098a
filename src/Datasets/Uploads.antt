-- ===== src/Datasets/Uploads.antt =====
-- DatasetUploadService of internal/services/dataset_upload.go: CreateUpload, UploadPart, ListParts, CancelUpload and
-- AssembleUpload. The object store is a parameter; a directory is its path as a text, for names that are not dots, and the
-- temporary file of assembleInlineUpload, which the function removes again, is a value.
use self_host.Prelude.{
  ℕ, not, Option, none, some, List, [], ◌++◌, ◌==◌, if◌then◌else◌, length, Result, ok, err, fail_if,
}
use self_host.Prelude.Int.{ℤ, pos}
use self_host.Text.{Text, codes, text_eq}
use self_host.Policy.Rule.{Uuid}
use self_host.Datasets.World.{
  Bytes, Upload, PartRow, World, UploadError, not_found, failed, Call, mkdir_call, int32, Act,
  ◌>>=◌, ◌>>◌, pure, lift, ignoring, call, find_dataset_by_uuid, create_dataset_upload,
  find_dataset_upload_by_id, delete_dataset_upload_by_id, upsert_dataset_upload_part,
  find_dataset_upload_parts, write_file, remove_file, remove_all,
}
use self_host.Datasets.Checks.{Digests, Reader, safe_path_part, read_upload_body}

pub record DatasetObjectRef : Type 0 where
  pub backend : Text
  pub bucket : Text
  pub key : Text

pub record DatasetStorageMetadata : Type 0 where
  pub backend : Text
  pub bucket : Text
  pub key : Text
  pub size : ℕ
  pub checksum : Text

-- DatasetObjectStore; reading an object is part of getting it.
pub record ObjectStore (O E : Type 0) : Type 0 where
  pub create_multipart_upload : DatasetObjectRef → Text → O → Result E Text × O
  pub upload_part : DatasetObjectRef → Text → ℤ → Bytes → Text → O → Result E (Text × ℕ) × O
  pub complete_multipart_upload :
      DatasetObjectRef → Text → List (ℤ × Text) → O → Result E DatasetStorageMetadata × O
  pub abort_multipart_upload : DatasetObjectRef → Text → O → Result E Unit × O
  pub get_object : DatasetObjectRef → O → Result E Bytes × O
  pub delete_object : DatasetObjectRef → O → Result E Unit × O

pub record DatasetUploadOptions (O E : Type 0) : Type 0 where
  pub domain : Text
  pub root_dir : Text
  pub max_part_size : ℕ
  pub max_total_size : ℕ
  pub content_ref : Uuid → DatasetObjectRef
  pub store : Option (ObjectStore O E)

-- `svc.opt.Store != nil && backend == DatasetStorageBackendS3`
unfoldable pub s3_store :
    {O E : Type 0} → Option (ObjectStore O E) → Text → Option (ObjectStore O E)
s3_store none backend = none
s3_store (some store) backend = if text_eq backend (codes "s3") then some store else none

unfoldable pub stored : {O E A : Type 0} → (O → Result E A × O) → Act O E A
stored f w = (
  elim (f w.objects).0 [ ok a ↦ ok a | err e ↦ err (failed e) ],
  record w { objects = (f w.objects).1 },
)

unfoldable pub undo_after :
    {O E A : Type 0}
    → Act O E Unit
    → Result (UploadError E) A × World O
    → Result (UploadError E) A × World O
undo_after undo (ok a, w) = (ok a, w)
undo_after undo (err e, w) = (err e, (undo w).1)

-- A call, and what is done after it where it fails.
unfoldable pub or_undo : {O E A : Type 0} → Act O E A → Act O E Unit → Act O E A
unfolding undo_after
or_undo m undo w = undo_after undo (m w)

unfoldable pub upload_ref : Upload → DatasetObjectRef
upload_ref u = record {
  backend = u.storage_backend;
  bucket = u.storage_bucket;
  key = u.storage_key;
}

unfoldable pub metadata_ref : DatasetStorageMetadata → DatasetObjectRef
metadata_ref m = record { backend = m.backend; bucket = m.bucket; key = m.key }

module _ {O E : Type 0} (opt : DatasetUploadOptions O E) where
  unfoldable pub upload_dir : Text → Text
  upload_dir upload_id =
      opt.root_dir
      ++ codes "/"
      ++ safe_path_part opt.domain
      ++ codes "/"
      ++ safe_path_part upload_id

module _ {O E : Type 0} (faults : Call → Option E) where
  -- FindDatasetUploadByID and the test of its dataset
  unfoldable pub find_upload : Uuid → Text → Act O E Upload
  find_upload dataset_uuid upload_id = do
    upload ← find_dataset_upload_by_id faults upload_id
    lift (fail_if (not (upload.dataset_uuid == dataset_uuid)) not_found)
    pure upload

module _ {O E : Type 0} (opt : DatasetUploadOptions O E) (digests : Digests)
    (faults : Call → Option E) where
  -- The row of a new upload, with what the object store or the directory needs.
  unfoldable pub prepare_upload : Uuid → Uuid → Text → Text → Act O E Upload
  prepare_upload dataset_uuid created_by upload_id format = elim opt.store [
    | none ↦ do
      call faults mkdir_call
      pure (record {
        dataset_uuid = dataset_uuid;
        created_by = created_by;
        storage_backend = codes "inline";
        storage_bucket = [];
        storage_key = [];
        backend_upload_id = [];
      })
    | some store ↦ do
      backend_upload_id ←
          stored (store.create_multipart_upload (opt.content_ref dataset_uuid) format)
      pure (record {
        dataset_uuid = dataset_uuid;
        created_by = created_by;
        storage_backend = codes "s3";
        storage_bucket = (opt.content_ref dataset_uuid).bucket;
        storage_key = (opt.content_ref dataset_uuid).key;
        backend_upload_id = backend_upload_id;
      })
  ]

  -- What is undone where the row cannot be inserted.
  unfoldable pub abandon_upload : Text → Upload → Act O E Unit
  abandon_upload upload_id u = elim opt.store [
    | none ↦ ignoring (remove_all faults (upload_dir opt upload_id))
    | some store ↦ ignoring (
        stored (
          store.abort_multipart_upload
            (record { backend = codes "s3"; bucket = u.storage_bucket; key = u.storage_key })
            u.backend_upload_id))
  ]

  -- `upload_id` is the new UUID.
  unfoldable pub create_upload : Uuid → Uuid → Text → Act O E Text
  create_upload dataset_uuid created_by upload_id = do
    ds ← find_dataset_by_uuid faults dataset_uuid
    u ← prepare_upload dataset_uuid created_by upload_id ds.format
    or_undo (create_dataset_upload faults upload_id u) (abandon_upload upload_id u)
    pure upload_id

  unfoldable pub upload_part : Uuid → Text → ℕ → Text → Reader E → Act O E Unit
  upload_part dataset_uuid upload_id part_number expected_md5 content = do
    upload ← find_upload faults dataset_uuid upload_id
    read ← lift (read_upload_body digests opt.max_part_size content expected_md5)
    elim (s3_store opt.store upload.storage_backend) [
      | some store ↦ do
        sent ← stored (
            store.upload_part (upload_ref upload) upload.backend_upload_id (int32 part_number)
              read.0 read.1)
        upsert_dataset_upload_part faults upload_id (record {
          part_number = int32 part_number;
          size = int32 sent.1;
          checksum_md5 = read.1;
          etag = sent.0;
        })
      | none ↦ do
        call faults mkdir_call
        write_file faults (upload_dir opt upload_id) (pos part_number) read.0
        or_undo
            (upsert_dataset_upload_part faults upload_id (record {
              part_number = int32 part_number;
              size = int32 (length read.0);
              checksum_md5 = read.1;
              etag = [];
            }))
            (remove_file (upload_dir opt upload_id) (pos part_number))
    ]

  unfoldable pub list_parts : Uuid → Text → Act O E (List PartRow)
  list_parts dataset_uuid upload_id = do
    find_upload faults dataset_uuid upload_id
    find_dataset_upload_parts faults upload_id

  unfoldable pub cancel_upload : Uuid → Text → Act O E Unit
  cancel_upload dataset_uuid upload_id = do
    upload ← find_upload faults dataset_uuid upload_id
    elim (s3_store opt.store upload.storage_backend) [
      | some store ↦
          stored (store.abort_multipart_upload (upload_ref upload) upload.backend_upload_id)
      | none ↦ remove_all faults (upload_dir opt upload_id)
    ]
    count ← delete_dataset_upload_by_id faults upload_id
    lift (fail_if (count == 0) not_found)
