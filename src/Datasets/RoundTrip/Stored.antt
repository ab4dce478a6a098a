-- ===== src/Datasets/RoundTrip/Stored.antt =====
-- The session of an upload from CreateUpload to AssembleUpload.
use self_host.Prelude.{
  ℕ, ◌+◌, ◌<◌, ◌≡◌, refl, sym, ap, subst, ◌∙◌, true, false, Option, none, some, List, [], ◌∷◌, ◌++◌,
  ◌==◌, if◌then◌else◌, All, length, length-append, is_empty, ok, arith,
}
use self_host.Text.{Text, codes, text_eq}
use self_host.Text.Laws.{text_eq_refl}
use self_host.Policy.Rule.{Uuid}
use mathlib.Core.Option.{some-injective}
use mathlib.Core.List.{append_assoc, append-nil}
use self_host.Datasets.World.{
  Bytes, Dataset, Upload, PartRow, World, Act, ◌>>=◌, ◌>>◌, continue, pure, lift, reading, changing,
  call, fault_of, found, absent, row_count, map_option, find_dataset_by_uuid, create_dataset_upload,
  find_dataset_upload_by_id, find_dataset_upload_parts, delete_dataset_upload_by_id,
  set_dataset_content, remove_all,
}
use self_host.Datasets.Checks.{Digests, over, digest_differs, check_parts}
use self_host.Datasets.Uploads.{
  DatasetUploadOptions, s3_store, or_undo, undo_after, upload_dir, find_upload, prepare_upload,
  create_upload,
}
use self_host.Datasets.Assemble.{
  with_content, inline_metadata, previous_ref, copy_parts, assemble_inline_upload, assembled,
  assembled_by, delete_stored, remove_dir, replace_content, assemble_upload,
}
use self_host.Datasets.Assemble.Stores.{both, joined}
use self_host.Datasets.RoundTrip.{
  no_faults, inline, concat, IsChunked, rows, check_parts-rows, upload_chunks, with_parts,
  upload_chunks-with_parts, with_parts-uploads, with_parts-datasets, joined-with_parts,
  with_parts-parts,
}

both-some :
    (o p : Option Bytes) (d : Bytes)
    → both o p ≡ some d
    → (b : Bytes) × (bs : Bytes) × (o ≡ some b) × (p ≡ some bs) × (d ≡ b ++ bs)
unfolding both
both-some (some b) (some bs) d h = (b, bs, refl, refl, cc h)
both-some none none d h = cc h
both-some none (some bs) d h = cc h
both-some (some b) none d h = cc h

uuid_self : (id : Uuid) → (id == id) ≡ true
uuid_self id = ground arith

rows-nonempty :
    (digests : Digests) (n : ℕ) (cs : List Bytes)
    → is_empty cs ≡ false
    → is_empty (rows digests n cs) ≡ false
unfolding rows
rows-nonempty digests n [] h = h
rows-nonempty digests n (c ∷ cs) h = refl

over-append :
    (limit : ℕ) (a b : Bytes) → over limit (length (a ++ b)) ≡ false → over limit (length a) ≡ false
unfolding over
over-append limit a b h = ground (arith, h, length-append a b)

module _ {O E : Type 0} (opt : DatasetUploadOptions O E) (digests : Digests)
    (upload_id : Text) where
  copy_parts-joined :
      (copied d : Bytes) (ps : List PartRow) (w : World O)
      → joined w (upload_dir (inline opt) upload_id) ps ≡ some d
      → over opt.max_total_size (length (copied ++ d)) ≡ false
      → copy_parts (inline opt) digests no_faults upload_id copied ps w ≡ (ok (copied ++ d), w)
  unfolding copy_parts joined call fault_of reading lift found pure ◌>>=◌ continue
  copy_parts-joined copied d [] w j o =
      ap (λ x. (ok x, w)) (sym (append-nil copied) ∙ ap (λ x. copied ++ x) (some-injective _ _ j))
  copy_parts-joined copied d (p ∷ ps) w j o =
      let (b, bs, f, r, e) = both-some _ _ d j in
      let t = append_assoc copied b bs ∙ ap (λ x. copied ++ x) (sym e) in
      let o' = ap (λ x. over opt.max_total_size (length x)) t ∙ o in
      rw f (
        rw (over-append opt.max_total_size (copied ++ b) bs o')
          (copy_parts-joined (copied ++ b) bs ps w r o' ∙ ap (λ x. (ok x, w)) t))

  -- The world after the assembly of `content`.
  finished : Uuid → Bytes → World O → World O
  finished dataset_uuid content w = record w {
    datasets = λ k.
        if dataset_uuid == k
        then map_option (with_content content (inline_metadata digests content)) (w.datasets k)
        else w.datasets k;
    uploads = λ k. if text_eq upload_id k then none else w.uploads k;
    parts = λ k. if text_eq upload_id k then [] else w.parts k;
    files = λ d k. if text_eq (upload_dir (inline opt) upload_id) d then none else w.files d k;
  }

  assembled-content :
      (u : Upload) (ps : List PartRow) (content : Bytes) (w : World O)
      → joined w (upload_dir (inline opt) upload_id) ps ≡ some content
      → over opt.max_total_size (length content) ≡ false
      → assembled (inline opt) digests no_faults u upload_id ps [] w
        ≡ (ok (content, inline_metadata digests content), w)
  unfolding assembled assembled_by s3_store assemble_inline_upload digest_differs call fault_of lift
      pure ◌>>=◌ continue
  assembled-content u ps content w j o = rw (copy_parts-joined [] content ps w j o) refl

  assemble_upload-finished :
      (dataset_uuid : Uuid) (u : Upload) (ds : Dataset) (content : Bytes) (w : World O)
      → w.uploads upload_id ≡ some u
      → (u.dataset_uuid == dataset_uuid) ≡ true
      → w.datasets dataset_uuid ≡ some ds
      → is_empty (w.parts upload_id) ≡ false
      → check_parts {E = E} 1 (w.parts upload_id) ≡ ok tt
      → joined w (upload_dir (inline opt) upload_id) (w.parts upload_id) ≡ some content
      → over opt.max_total_size (length content) ≡ false
      → assemble_upload (inline opt) digests no_faults dataset_uuid upload_id [] w
        ≡ (ok tt, finished dataset_uuid content w)
  unfolding assemble_upload find_upload find_dataset_upload_by_id find_dataset_upload_parts
      previous_ref replace_content set_dataset_content or_undo undo_after delete_stored remove_dir
      delete_dataset_upload_by_id remove_all row_count call fault_of reading changing lift found
      pure ◌>>=◌ continue finished
  assemble_upload-finished dataset_uuid u ds content w f d g e c j o =
      rw f (
        rw d (rw e (rw c (rw (assembled-content u (w.parts upload_id) content w j o) (rw g refl)))))

  -- The world after CreateUpload, and the row of the upload.
  new_upload : Uuid → Uuid → Upload
  new_upload dataset_uuid created_by = record {
    dataset_uuid = dataset_uuid;
    created_by = created_by;
    storage_backend = codes "inline";
    storage_bucket = [];
    storage_key = [];
    backend_upload_id = [];
  }

  begun : Uuid → Uuid → World O → World O
  unfolding new_upload
  begun dataset_uuid created_by w = record w {
    uploads =
        λ k. if text_eq upload_id k then some (new_upload dataset_uuid created_by) else w.uploads k;
  }

  create_upload-begun :
      (dataset_uuid created_by : Uuid) (ds : Dataset) (w : World O)
      → w.datasets dataset_uuid ≡ some ds
      → w.uploads upload_id ≡ none
      → create_upload (inline opt) digests no_faults dataset_uuid created_by upload_id w
        ≡ (ok upload_id, begun dataset_uuid created_by w)
  unfolding create_upload find_dataset_by_uuid prepare_upload create_dataset_upload or_undo
      undo_after absent call fault_of reading changing found pure ◌>>=◌ continue begun new_upload
  create_upload-begun dataset_uuid created_by ds w g n = rw g (rw n refl)

  -- A client that uploads the chunks.
  unfoldable pub session : Uuid → Uuid → List Bytes → Act O E Unit
  session dataset_uuid created_by chunks =
      create_upload (inline opt) digests no_faults dataset_uuid created_by upload_id
      >> (upload_chunks opt digests dataset_uuid upload_id 1 chunks
          >> assemble_upload (inline opt) digests no_faults dataset_uuid upload_id [])

  session-finished :
      (dataset_uuid created_by : Uuid) (ds : Dataset) (chunks : List Bytes) (w : World O)
      → w.datasets dataset_uuid ≡ some ds
      → w.uploads upload_id ≡ none
      → w.parts upload_id ≡ []
      → is_empty chunks ≡ false
      → 1 + length chunks < 2147483648
      → IsChunked opt.max_part_size chunks
      → over opt.max_total_size (length (concat chunks)) ≡ false
      → session dataset_uuid created_by chunks w ≡ (
        ok tt,
        finished dataset_uuid (concat chunks) (
            with_parts opt digests dataset_uuid upload_id 1 chunks
              (begun dataset_uuid created_by w)),
      )
  unfolding session ◌>>=◌ continue begun new_upload
  session-finished dataset_uuid created_by ds chunks w g n e c l h o =
      let u = new_upload dataset_uuid created_by in
      let b = begun dataset_uuid created_by w in
      let v = with_parts opt digests dataset_uuid upload_id 1 chunks b in
      let found : b.uploads upload_id ≡ some u = rw (text_eq_refl upload_id) refl in
      let parts =
        with_parts-parts opt digests dataset_uuid upload_id 1 chunks b (subst (All _) (sym e) tt)
        ∙ ap (λ ps. ps ++ rows digests 1 chunks) e in
      rw (create_upload-begun dataset_uuid created_by ds w g n) (
        rw
          (upload_chunks-with_parts opt digests dataset_uuid upload_id 1 chunks b u found
            (uuid_self dataset_uuid) (omega arith) l h)
          (assemble_upload-finished dataset_uuid u ds (concat chunks) v
            (ap (λ m. m upload_id)
                (with_parts-uploads opt digests dataset_uuid upload_id 1 chunks b)
              ∙ found)
            (uuid_self dataset_uuid)
            (ap (λ m. m dataset_uuid)
                (with_parts-datasets opt digests dataset_uuid upload_id 1 chunks b)
              ∙ g)
            (ap is_empty parts ∙ rows-nonempty digests 1 chunks c)
            (ap (check_parts 1) parts ∙ check_parts-rows digests opt.max_part_size 1 chunks h)
            (ap (joined v (upload_dir (inline opt) upload_id)) parts
              ∙ joined-with_parts opt digests dataset_uuid upload_id 1 chunks b)
            o))

  -- Chunks that are uploaded as the parts 1, 2 and so on of a new upload and assembled, while no call fails, make the content
  -- of the dataset, with its size and checksum, and the upload is gone; where the chunks are within the limits and none but the
  -- last is smaller than the least size of a part.
  pub chunks-stored :
      (dataset_uuid created_by : Uuid) (ds : Dataset) (chunks : List Bytes) (w : World O)
      → w.datasets dataset_uuid ≡ some ds
      → w.uploads upload_id ≡ none
      → w.parts upload_id ≡ []
      → is_empty chunks ≡ false
      → 1 + length chunks < 2147483648
      → IsChunked opt.max_part_size chunks
      → over opt.max_total_size (length (concat chunks)) ≡ false
      → (session dataset_uuid created_by chunks w).0 ≡ ok tt
        × (((session dataset_uuid created_by chunks w).1).datasets dataset_uuid
            ≡ some (with_content (concat chunks) (inline_metadata digests (concat chunks)) ds))
        × (((session dataset_uuid created_by chunks w).1).uploads upload_id ≡ none)
  unfolding begun new_upload finished
  chunks-stored dataset_uuid created_by ds chunks w g n e c l h o =
      let f = session-finished dataset_uuid created_by ds chunks w g n e c l h o in
      let held =
        ap (λ m. m dataset_uuid)
          (with_parts-datasets opt digests dataset_uuid upload_id 1 chunks
            (begun dataset_uuid created_by w))
        ∙ g in
      (
        ap (λ r. r.0) f,
        ap (λ r. (r.1).datasets dataset_uuid) f ∙ rw (uuid_self dataset_uuid) (rw held refl),
        ap (λ r. (r.1).uploads upload_id) f ∙ rw (text_eq_refl upload_id) refl,
      )
