-- ===== src/Examples/Datasets.antt =====
-- An upload of one chunk, and the assembly of a part.
use self_host.Prelude.{
  ◌≢◌, ◌>>◌, fail_if, is_empty, ℕ, ◌≡◌, ◌↔◌, refl, false, Option, none, some, List, [], ◌∷◌, length,
  ok, arith,
}
use self_host.Prelude.Int.{pos}
use self_host.Text.{Text, codes}
use self_host.Datasets.World.{invalid_part, Bytes, Dataset, PartRow, World, Call}
use self_host.Datasets.Checks.{Digests, over, check_parts}
use self_host.Datasets.Checks.Numbered.{IsNumbered, check_parts_iff}
use self_host.Datasets.Uploads.{DatasetUploadOptions}
use self_host.Datasets.Assemble.{with_content, inline_metadata, assemble_upload}
use self_host.Datasets.Assemble.Stores.{IsStored, KeepsOrStores, assemble_upload-Stores}
use self_host.Datasets.Steps.{After}
use self_host.Datasets.RoundTrip.{concat, IsChunked}
use self_host.Datasets.RoundTrip.Stored.{session, chunks-stored}

abbrev options : DatasetUploadOptions ℕ Text
options = record {
  domain = codes "test";
  root_dir = codes "/var/uploads";
  max_part_size = 8;
  max_total_size = 8;
  content_ref = λ id. record { backend = codes "inline"; bucket = []; key = [] };
  store = none;
}

abbrev digests : Digests
digests = record { md5 = λ b. codes "0a"; checksum_hex = λ b. codes "0b" }

abbrev dataset : Dataset
dataset = record {
  format = codes "csv";
  content = [];
  checksum = [];
  size = pos 0;
  storage_backend = codes "inline";
  storage_bucket = [];
  storage_key = [];
}

abbrev empty_world : World ℕ
empty_world = record {
  datasets = λ k. some dataset;
  uploads = λ k. none;
  parts = λ k. [];
  files = λ d k. none;
  objects = 0;
}

abbrev chunk : Bytes
chunk = 1 ∷ 2 ∷ 3 ∷ []

abbrev name : Text
name = codes "u-1"

chunk-IsChunked : IsChunked 8 (chunk ∷ [])
unfolding IsChunked over
chunk-IsChunked = (omega arith, refl, refl, tt)

chunk-over : over 8 (length (concat (chunk ∷ []))) ≡ false
unfolding over concat
chunk-over = refl

chunks-stored_example :
    ((session options digests name 4 9 (chunk ∷ []) empty_world).0 ≡ ok tt)
    × (((session options digests name 4 9 (chunk ∷ []) empty_world).1).datasets 4
        ≡ some (
            with_content
              (concat (chunk ∷ []))
              (inline_metadata digests (concat (chunk ∷ [])))
              dataset))
    × (((session options digests name 4 9 (chunk ∷ []) empty_world).1).uploads name ≡ none)
chunks-stored_example =
    chunks-stored options digests name 4 9 dataset (chunk ∷ []) empty_world refl refl refl refl
      (omega arith) chunk-IsChunked chunk-over

abbrev one_part : World ℕ
one_part = record empty_world {
  uploads = λ k. some (record {
    dataset_uuid = 4;
    created_by = 9;
    storage_backend = codes "inline";
    storage_bucket = [];
    storage_key = [];
    backend_upload_id = [];
  });
  parts =
      λ k. record { part_number = pos 1; size = pos 3; checksum_md5 = codes "0a"; etag = [] } ∷ [];
  files = λ d k. some chunk;
}

-- No call fails.
abbrev quiet : Call → Option Text
quiet c = none

assemble_upload-Stores_example :
    After
      (λ u. IsStored options digests quiet one_part name 4 [])
      (KeepsOrStores options digests quiet one_part name 4 [])
      (assemble_upload options digests quiet 4 name [] one_part)
assemble_upload-Stores_example =
    assemble_upload-Stores options digests quiet one_part name refl 4 []

-- A part of the least size and a smaller last one.
abbrev two_rows : List PartRow
two_rows =
    record { part_number = pos 1; size = pos 5242880; checksum_md5 = codes "0a"; etag = [] }
    ∷ record { part_number = pos 2; size = pos 3; checksum_md5 = codes "0a"; etag = [] }
    ∷ []

check_parts_iff_example :
    ((fail_if (is_empty two_rows) invalid_part >> check_parts {E = Text} 1 two_rows) ≡ ok tt)
    ↔ ((two_rows ≢ []) × IsNumbered 1 two_rows)
check_parts_iff_example = check_parts_iff Text two_rows
