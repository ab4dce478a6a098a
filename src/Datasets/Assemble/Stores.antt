-- ===== src/Datasets/Assemble/Stores.antt =====
-- What AssembleUpload makes of the files of the parts, for a service without an object store.
use self_host.Prelude.{
  ◌≡◌, ◌⊎◌, inl, inr, refl, sym, ap, subst, ◌∙◌, Bool, false, Option, none, some, List, [], ◌∷◌,
  ◌++◌, ◌==◌, ==_iff, if◌then◌else◌, length, is_empty, Result, ok, Bool-cases, Option-cases, arith,
}
use mathlib.Core.List.{append_assoc, append-nil}
use self_host.Text.{Text}
use self_host.Policy.Rule.{Uuid}
use self_host.Datasets.World.{
  Bytes, Dataset, Upload, PartRow, World, Call, ◌>>=◌, ◌>>◌, continue, pure, lift, reading, call,
  fault_of, changing, row_count, map_option, delete_upload_call, remove_all_call,
  update_dataset_call, delete_dataset_upload_by_id, find_dataset_upload_by_id,
  find_dataset_upload_parts, set_dataset_content, remove_all,
}
use self_host.Datasets.Steps.{
  After, done, stopped, continue-After, bind-After, Reads, call-Reads, lift-Reads, reading-Reads,
  bind-Reads, weaken-After, weaken-Both, found-some, fail_if-ok,
}
use self_host.Datasets.Checks.{Digests, digest_differs, over, check_parts}
use self_host.Datasets.Uploads.{
  DatasetObjectRef, DatasetStorageMetadata, DatasetUploadOptions, s3_store, or_undo, undo_after,
  upload_dir, find_upload,
}
use self_host.Datasets.Assemble.{
  with_content, previous_ref, copy_parts, assemble_inline_upload, inline_metadata, assembled,
  assembled_by, remove_dir, delete_stored, replace_content, assemble_upload,
}

unfoldable pub both : Option Bytes → Option Bytes → Option Bytes
both (some b) (some bs) = some (b ++ bs)
both _ _ = none

-- The files of the parts, one after the other.
unfoldable pub joined : {O : Type 0} → World O → Text → List PartRow → Option Bytes
unfolding both
joined w dir [] = some []
joined w dir (p ∷ ps) = both (w.files dir p.part_number) (joined w dir ps)

pub joined_cons :
    {O : Type 0} (w : World O) (dir : Text) (p : PartRow) (ps : List PartRow) {b bs : Bytes}
    → w.files dir p.part_number ≡ some b
    → joined w dir ps ≡ some bs
    → joined w dir (p ∷ ps) ≡ some (b ++ bs)
unfolding joined both
joined_cons w dir p ps e j = rw e (rw j refl)

module _ {O E : Type 0} (opt : DatasetUploadOptions O E) (digests : Digests)
    (faults : Call → Option E) (w : World O) (upload_id : Text) where
  -- `c` is what was copied and the files of the parts, and no more than the limit.
  IsCopied : Bytes → List PartRow → Bytes → Type 0
  IsCopied copied parts c =
      (d : Bytes) × (joined w (upload_dir opt upload_id) parts ≡ some d)
      × (c ≡ copied ++ d)
      × (over opt.max_total_size (length c) ≡ false)

  copy_parts-IsCopied :
      (copied : Bytes) (parts : List PartRow)
      → over opt.max_total_size (length copied) ≡ false
      → After
          (Reads w (IsCopied copied parts))
          (λ v. v ≡ w)
          (copy_parts opt digests faults upload_id copied parts w)
  unfolding copy_parts IsCopied joined pure Reads
  copy_parts-IsCopied copied [] h = done (refl, ([], refl, sym (append-nil copied), h))
  copy_parts-IsCopied copied (part ∷ parts) h = bind-Reads w _ _ (call-Reads w faults _) refl λ u _.
      bind-Reads w _ _ (reading-Reads w _) refl λ body b.
        bind-Reads w _ _ (call-Reads w faults _) refl λ u' _.
          bind-Reads w _ _ (lift-Reads w _) refl λ u'' l.
            weaken-After (copy_parts-IsCopied (copied ++ body) parts (fail_if-ok _ _ l))
              λ a v (e, (d, j, c, o)). (
                e,
                (
                  body ++ d,
                  joined_cons w _ part parts (found-some _ _ body b) j,
                  c ∙ append_assoc copied body d,
                  o,
                ),
              )

  -- The content that assembling yields is that of the files of the parts, within the limit and of the digest expected.
  IsAssembled : List PartRow → Text → Bytes × DatasetStorageMetadata → Type 0
  IsAssembled parts expected_md5 (content, m) =
      (joined w (upload_dir opt upload_id) parts ≡ some content)
      × (over opt.max_total_size (length content) ≡ false)
      × (digest_differs expected_md5 (digests.md5 content) ≡ false)
      × (m ≡ inline_metadata digests content)

  over_none : over opt.max_total_size 0 ≡ false
  unfolding over
  over_none = ground arith

  assemble_inline_upload-IsAssembled :
      (parts : List PartRow) (expected_md5 : Text)
      → After
          (Reads w (IsAssembled parts expected_md5))
          (λ v. v ≡ w)
          (assemble_inline_upload opt digests faults upload_id parts expected_md5 w)
  unfolding assemble_inline_upload IsAssembled IsCopied pure Reads
  assemble_inline_upload-IsAssembled parts expected_md5 =
      bind-Reads w _ _ (call-Reads w faults _) refl λ u _.
        bind-Reads w _ _ (copy_parts-IsCopied [] parts over_none) refl λ c (d, j, e, o).
          bind-Reads w _ _ (lift-Reads w _) refl λ u' l.
            bind-Reads w _ _ (call-Reads w faults _) refl
              λ u'' _. done (refl, (j ∙ ap some (sym e), o, fail_if-ok _ _ l, refl))

  assembled-IsAssembled :
      opt.store ≡ none
      → (upload : Upload) (parts : List PartRow) (expected_md5 : Text)
      → After
          (Reads w (IsAssembled parts expected_md5))
          (λ v. v ≡ w)
          (assembled opt digests faults upload upload_id parts expected_md5 w)
  unfolding assembled assembled_by s3_store
  assembled-IsAssembled inline upload parts expected_md5 =
      subst
        (λ st.
          After (Reads w (IsAssembled parts expected_md5)) (λ v. v ≡ w)
            (assembled_by opt digests faults (s3_store st upload.storage_backend) upload upload_id
              parts expected_md5 w))
        (sym inline) (assemble_inline_upload-IsAssembled parts expected_md5)

  -- The dataset has the content that the files of the numbered parts of its upload make together, and no other changed.
  pub IsStored : Uuid → Text → World O → Type 0
  unfolding IsAssembled
  IsStored dataset_uuid expected_md5 v =
      (content : Bytes) × (m : DatasetStorageMetadata) × (upload : Upload) × (w.uploads upload_id
        ≡ some upload)
      × (upload.dataset_uuid ≡ dataset_uuid)
      × (is_empty (w.parts upload_id) ≡ false)
      × (check_parts {E = E} 1 (w.parts upload_id) ≡ ok tt)
      × IsAssembled (w.parts upload_id) expected_md5 (content, m)
      × ((k : Uuid)
          → v.datasets k ≡ (
              if dataset_uuid == k
              then map_option (with_content content m) (w.datasets k)
              else w.datasets k))

  IsStored-Same :
      (dataset_uuid : Uuid) (expected_md5 : Text) (v y : World O)
      → IsStored dataset_uuid expected_md5 v
      → y.datasets ≡ v.datasets
      → IsStored dataset_uuid expected_md5 y
  unfolding IsStored
  IsStored-Same dataset_uuid expected_md5 v y (content, m, u, f, d, g, c, a, s) e =
      (content, m, u, f, d, g, c, a, λ k. ap (λ D. D k) e ∙ s k)

  pub KeepsOrStores : Uuid → Text → World O → Type 0
  KeepsOrStores dataset_uuid expected_md5 v =
      ((k : Uuid) → v.datasets k ≡ w.datasets k) ⊎ IsStored dataset_uuid expected_md5 v

module _ {O E : Type 0} (faults : Call → Option E) (w : World O) where
  Same : {A : Type 0} → A → World O → Type 0
  Same a v = v.datasets ≡ w.datasets

  delete_dataset_upload_by_id-Same :
      (upload_id : Text)
      → After Same (λ v. v.datasets ≡ w.datasets) (delete_dataset_upload_by_id faults upload_id w)
  unfolding delete_dataset_upload_by_id call fault_of ◌>>=◌ continue reading changing pure Same
  delete_dataset_upload_by_id-Same upload_id = elim (Option-cases (faults delete_upload_call)) [
    | inl e ↦ rw e (done refl)
    | inr (x, e) ↦ rw e (stopped refl)
  ]

  remove_all-Same :
      (dir : Text) → After Same (λ v. v.datasets ≡ w.datasets) (remove_all faults dir w)
  unfolding remove_all call fault_of ◌>>=◌ continue changing Same
  remove_all-Same dir = elim (Option-cases (faults remove_all_call)) [
    | inl e ↦ rw e (done refl)
    | inr (x, e) ↦ rw e (stopped refl)
  ]

  map_option-missing :
      (dataset_uuid k : Uuid) (f : Dataset → Dataset)
      → w.datasets dataset_uuid ≡ none
      → (if dataset_uuid == k then map_option f (w.datasets k) else w.datasets k) ≡ w.datasets k
  map_option-missing dataset_uuid k f h = elim (Bool-cases (dataset_uuid == k)) [
    | inr e ↦ rw e refl
    | inl e ↦
        let n = subst (λ j. w.datasets j ≡ none) ((==_iff dataset_uuid k).0 e) h in
        rw e (ap (map_option f) n ∙ sym n)
  ]

  module _ (opt : DatasetUploadOptions O E) (digests : Digests) (dataset_uuid : Uuid)
      (content : Bytes) (m : DatasetStorageMetadata) where
    replace_content-Replaced :
        opt.store ≡ none
        → After
            (λ u v.
              (k : Uuid)
              → v.datasets k ≡ (
                  if dataset_uuid == k
                  then map_option (with_content content m) (w.datasets k)
                  else w.datasets k))
            (λ v. (k : Uuid) → v.datasets k ≡ w.datasets k)
            (replace_content opt digests faults dataset_uuid content m w)
    unfolding replace_content or_undo undo_after set_dataset_content call fault_of lift ◌>>=◌
        continue reading changing pure delete_stored row_count
    replace_content-Replaced inline = rw inline (elim (Option-cases (faults update_dataset_call)) [
      | inr (x, e) ↦ rw e (stopped (λ k. refl))
      | inl e ↦ rw e (elim (Option-cases (w.datasets dataset_uuid)) [
        | inr (d, f) ↦ rw f (done (λ k. refl))
        | inl f ↦ rw f (stopped (λ k. map_option-missing dataset_uuid k _ f))
      ])
    ])

ok_injective : {E A : Type 0} (x y : A) → ◌≡◌ {A = Result E A} (ok x) (ok y) → x ≡ y
ok_injective x y h = cc h

find_upload-Reads :
    {O E : Type 0} (faults : Call → Option E) (w : World O) (dataset_uuid : Uuid) (upload_id : Text)
    → After
        (Reads w (λ u. (w.uploads upload_id ≡ some u) × (u.dataset_uuid ≡ dataset_uuid)))
        (λ v. v ≡ w)
        (find_upload faults dataset_uuid upload_id w)
unfolding find_upload find_dataset_upload_by_id Reads pure
find_upload-Reads faults w dataset_uuid upload_id =
    bind-Reads w _ _ (bind-Reads w _ _ (call-Reads w faults _) refl λ u _. reading-Reads w _) refl
      λ u f. bind-Reads w _ _ (lift-Reads w _) refl λ u' l. done (
        refl,
        (found-some _ _ u f, ground (arith, fail_if-ok _ _ l, ==_iff u.dataset_uuid dataset_uuid)),
      )

find_parts-Reads :
    {O E : Type 0} (faults : Call → Option E) (w : World O) (upload_id : Text)
    → After
        (Reads w (λ ps. w.parts upload_id ≡ ps))
        (λ v. v ≡ w)
        (find_dataset_upload_parts faults upload_id w)
unfolding find_dataset_upload_parts Reads
find_parts-Reads faults w upload_id =
    bind-Reads w _ _ (call-Reads w faults _) refl
      λ u _. weaken-After (reading-Reads w _) λ ps v (e, f). (e, ok_injective _ _ f)

-- What follows the UPDATE leaves the datasets alone.
finish-Same :
    {O E : Type 0} (opt : DatasetUploadOptions O E) (faults : Call → Option E) (w : World O)
    (condition : Bool) (previous : DatasetObjectRef) (upload_id dir : Text)
    → opt.store ≡ none
    → After
        (Same faults w)
        (λ v. v.datasets ≡ w.datasets)
        ((delete_stored opt.store condition previous
            >> (delete_dataset_upload_by_id faults upload_id >> remove_dir faults opt.store dir))
          w)
unfolding delete_stored pure continue ◌>>=◌ remove_dir Same
finish-Same opt faults w condition previous upload_id dir inline = rw inline (
    continue-After _ (delete_dataset_upload_by_id-Same faults w upload_id)
      λ count v e. weaken-Both (remove_all-Same faults v dir) (λ a u h. h ∙ e) (λ u h. h ∙ e))

module _ {O E : Type 0} (opt : DatasetUploadOptions O E) (digests : Digests)
    (faults : Call → Option E) (w : World O) (upload_id : Text) where
  -- A service without an object store: where AssembleUpload succeeds, the dataset has the content that the files of the
  -- parts 1, 2 and so on of its upload make in this order, which is within the limit and of the digest expected; where it
  -- fails, either this is so or no dataset changed. No other dataset changes.
  pub assemble_upload-Stores :
      opt.store ≡ none
      → (dataset_uuid : Uuid) (expected_md5 : Text)
      → After
          (λ u. IsStored opt digests faults w upload_id dataset_uuid expected_md5)
          (KeepsOrStores opt digests faults w upload_id dataset_uuid expected_md5)
          (assemble_upload opt digests faults dataset_uuid upload_id expected_md5 w)
  unfolding assemble_upload KeepsOrStores previous_ref IsStored Same
  assemble_upload-Stores inline dataset_uuid expected_md5 =
      let kept = inl (λ k. refl) in
      bind-Reads w _ _ (find_upload-Reads faults w dataset_uuid upload_id) kept λ upload (f, d).
        bind-Reads w _ _ (reading-Reads w _) kept λ previous _.
          bind-Reads w _ _ (find_parts-Reads faults w upload_id) kept λ parts p.
            bind-Reads w _ _ (lift-Reads w _) kept λ u g.
              bind-Reads w _ _ (lift-Reads w _) kept λ u' c.
                bind-Reads w _ _
                  (assembled-IsAssembled opt digests faults w upload_id inline upload parts
                    expected_md5)
                  kept
                  λ (content, m) a.
                    bind-After
                      {P = λ x v.
                        IsStored opt digests faults w upload_id dataset_uuid expected_md5 v}
                      _ _ w
                      (weaken-Both
                        (replace_content-Replaced faults w opt digests dataset_uuid content m
                          inline)
                        (λ u'' v h. (
                          content,
                          m,
                          upload,
                          f,
                          d,
                          subst (λ ps. is_empty ps ≡ false) (sym p) (fail_if-ok _ _ g),
                          subst (λ ps. check_parts {E = E} 1 ps ≡ ok tt) (sym p) c,
                          subst
                              (λ ps.
                                IsAssembled opt digests faults w upload_id ps expected_md5
                                  (content, m))
                              (sym p) a,
                          h,
                        ))
                        λ v h. inl h)
                      λ u'' v st.
                        weaken-Both (finish-Same opt faults v _ previous upload_id _ inline)
                          (λ x y e.
                            IsStored-Same opt digests faults w upload_id dataset_uuid expected_md5 v
                              y st e)
                          λ y e. inr (
                            IsStored-Same opt digests faults w upload_id dataset_uuid expected_md5 v
                              y st e)
