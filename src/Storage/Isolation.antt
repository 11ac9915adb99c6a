-- ===== src/Storage/Isolation.antt =====
-- An attached file is read back by its tenant and by no other.
use tracks.Common.{
  String, ◌≡◌, refl, sym, ap, ◌∙◌, ◌≢◌, Bool, true, false, not, ◌||◌, none, some, [], ◌∷◌, ◌++◌,
  arith, eq_iff, nat_beq, ◌==◌, string_eq, All,
}
use Prim.Native.String.{◌++◌ as append}
use text.Mathlib.TextLemmas.{append_cancel_left, cons-append}
use tracks.Common.Split.{split_on, first_part}
use tracks.Common.Splitting.{Avoids, split_on-append}
use tracks.Common.Dict.{get, put, get-put, get-put_self, get-put_ne, get-delete}
use tracks.Common.Result.{ok, err}
use tracks.Storage.{
  Blob, Storage, Written, written, failed, StorageEnv, Extracted, tenant, storage_key, put_file,
  new_blob, after_put, attach, get_file,
}

-- The id of a tenant holds no slash.
abbrev pub IsId : String → Type 0
IsId id = ((id == "") ≡ false) × Avoids (λ n. nat_beq n b'/') id

-- A path that cleaning leaves as it is.
abbrev pub is_part : String → Bool
is_part part = not (part == "" || part == "." || part == "..")

abbrev pub IsClean : String → Type 0
IsClean path = All (λ part. is_part part ≡ true) (split_on b'/' path)

first_id :
    (id key : String) → IsId id → first_part (split_on b'/' (append id (append "/blobs/" key))) ≡ id
first_id id key h =
    ap (λ u. first_part (split_on b'/' (append id u))) (cons-append "/" "blobs/" key)
    ∙ ap first_part (split_on-append b'/' id "/" (append "blobs/" key) h.1 refl)

storage_key_injective :
    (a b key j : String)
    → IsId a
    → IsId b
    → storage_key (tenant a) key ≡ storage_key (tenant b) j
    → a ≡ b
unfolding storage_key
storage_key_injective a b key j ha hb e =
    let whole : append "tenants/" (append a (append "/blobs/" key))
        ≡ append "tenants/" (append b (append "/blobs/" j)) =
      ground (arith, e, ha.0, hb.0) in
    let paths : append a (append "/blobs/" key) ≡ append b (append "/blobs/" j) =
      append_cancel_left "tenants/" (append a (append "/blobs/" key))
        (append b (append "/blobs/" j)) whole in
    sym (first_id a key ha) ∙ ap (λ u. first_part (split_on b'/' u)) paths ∙ first_id b j hb

module _ (env : StorageEnv) where
  -- Clean keys are joined to different paths.
  abbrev pub JoinsApart : Type 0
  JoinsApart = (a b : String) → IsClean a → IsClean b → env.join_root a ≡ env.join_root b → a ≡ b

  -- What a successful `Attach` has done.
  attached :
      (extracted : Extracted) (key content filename content_type : String) (s s' : Storage)
      (blob : Blob)
      → attach env extracted key content filename content_type s ≡ (s', ok blob)
      → (s'.files ≡ put (env.join_root (storage_key extracted key)) content s.files)
        × (blob ≡ new_blob env key content filename content_type)
        × (s'.blobs ≡ s.blobs ++ blob ∷ [])
  unfolding attach
  attached extracted key content filename content_type s s' blob e =
      let made = new_blob env key content filename content_type in
      let path = env.join_root (storage_key extracted key) in
      go path made (env.write path) (env.create made) e
    where
      go :
          (path : String) (made : Blob) (w : Written) (c : Bool)
          → after_put env w c path made (record s { files = put_file w path content s.files })
            ≡ (s', ok blob)
          → (s'.files ≡ put path content s.files)
            × (blob ≡ made)
            × (s'.blobs ≡ s.blobs ++ blob ∷ [])
      go path made written true e = ground arith
      go path made written false e = cc e
      go path made (failed left) c e = cc e

  -- A file that is attached is read back by its tenant as it was sent, with its row added to the
  -- others, and another tenant finds for a blob what it found before: for ids of tenants that are not
  -- empty and hold no slash, and a key of each of the two blobs whose storage key is clean, without
  -- empty parts and parts "." or "..". filepath.Join is to join such keys to different paths.
  pub get_file-attach :
      (id other key content filename content_type : String) (s s' : Storage) (blob found : Blob)
      → attach env (tenant id) key content filename content_type s ≡ (s', ok blob)
      → IsId id
      → IsId other
      → id ≢ other
      → IsClean (storage_key (tenant id) key)
      → IsClean (storage_key (tenant other) found.key)
      → JoinsApart
      → (get_file env (tenant id) blob s' ≡ some content)
        × (s'.blobs ≡ s.blobs ++ blob ∷ [])
        × (get_file env (tenant other) found s' ≡ get_file env (tenant other) found s)
  unfolding get_file
  get_file-attach id other key content filename content_type s s' blob found e hi ho ne clean
        other_clean apart =
      let (files, made, rows) =
        attached (tenant id) key content filename content_type s s' blob e in
      (
        rw (files, made)
            (get-put_self (env.join_root (storage_key (tenant id) key)) content s.files),
        rows,
        rw files (
            get-put_ne (env.join_root (storage_key (tenant id) key))
              (env.join_root (storage_key (tenant other) found.key)) content s.files
              (λ p. ne (
                storage_key_injective id other key found.key hi ho
                  (apart _ _ clean other_clean p)))),
      )

  -- An upload whose row cannot be written leaves the files as they were: where the key was free and
  -- the file can be removed again, every file reads as before, and no row is added.
  pub get-attach_error :
      (extracted : Extracted) (key content filename content_type : String) (s : Storage)
      → let path = env.join_root (storage_key extracted key) in
        let made = new_blob env key content filename content_type in
        get path s.files ≡ none
        → env.write path ≡ written
        → env.create made ≡ false
        → env.remove path ≡ true
        → let (s', result) = attach env extracted key content filename content_type s in
          (result ≡ err "create")
          × (s'.blobs ≡ s.blobs)
          × ((j : String) → get j s'.files ≡ get j s.files)
  unfolding attach
  get-attach_error extracted key content filename content_type s free w c r =
      let path = env.join_root (storage_key extracted key) in
      rw (w, c, r)
        (
          refl,
          refl,
          λ j.
              get-delete path j (put path content s.files)
              ∙ ground (arith, get-put path j content s.files, eq_iff path j, free),
        )
