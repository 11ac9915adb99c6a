-- ===== src/Storage/Tests.antt =====
-- Runs of the storage, and the theorems on it at concrete files.
use tracks.Common.{◌≡◌, refl, true, not, some, [], ◌∷◌, arith, eq_iff, ◌==◌, string_eq}
use tracks.Common.Split.{split_on}
use tracks.Common.Dict.{put, delete}
use tracks.Common.Result.{ok}
use tracks.Storage.{
  Blob, Storage, written, StorageEnv, tenant, extractor_error, storage_key, new_blob, attach,
  get_file, url,
}
use Prim.Native.String.{◌++◌ as append}
use text.Mathlib.TextLemmas.{append_cancel_left}
use tracks.Storage.Isolation.{get_file-attach}

abbrev env : StorageEnv
env = record {
  write = λ _. written;
  remove = λ _. true;
  create = λ b. not (b.filename == "bad");
  checksum = λ _. "md5";
  size = λ _. 5;
  join_root = λ key. append "data/" key;
}

abbrev empty_storage : Storage
empty_storage = record { files = []; blobs = [] }

abbrev blob : Blob
blob = new_blob env "k1" "hello" "a.txt" "text/plain"

abbrev after : Storage
after = record { files = ("data/tenants/7/blobs/k1", "hello") ∷ []; blobs = blob ∷ [] }

attach_run :
    attach env (tenant "7") "k1" "hello" "a.txt" "text/plain" empty_storage ≡ (after, ok blob)
unfolding attach put
attach_run = refl

get_file-attach_example :
    (get_file env (tenant "7") blob after ≡ some "hello")
    × (after.blobs ≡ blob ∷ [])
    × (get_file env (tenant "8") blob after ≡ get_file env (tenant "8") blob empty_storage)
unfolding storage_key split_on
get_file-attach_example =
    get_file-attach env "7" "8" "k1" "hello" "a.txt" "text/plain" empty_storage after blob blob
      attach_run (ground arith) (ground arith) (λ e. cc ((eq_iff "7" "8").1 e))
      (refl, (refl, (refl, (refl, tt)))) (refl, (refl, (refl, (refl, tt))))
      λ a b _ _ e. append_cancel_left "data/" a b e

attach_bad :
    (attach env (tenant "7") "k1" "hello" "bad" "text/plain" empty_storage).0 ≡ empty_storage
unfolding attach put delete
attach_bad = refl

-- Where the extractor fails the file stands with those of no tenant.
key_of_error : storage_key extractor_error "k1" ≡ "k1"
unfolding storage_key
key_of_error = refl

url_run : url (tenant "7") blob ≡ "/storage/tenants/7/blobs/k1"
unfolding url
url_run = refl
