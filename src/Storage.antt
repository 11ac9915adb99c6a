-- ===== src/Storage.antt =====
-- Files that are attached (modules/storage/service.go), over the driver for the local disk
-- (modules/storage/disk/driver.go) and the rows of the blobs.
pub mod Isolation
mod Tests
use tracks.Common.{
  ℕ, String, Bool, true, false, Option, none, some, List, [], ◌∷◌, ◌++◌, if◌then◌else◌, ◌==◌,
  string_eq,
}
use Prim.Native.String.{◌++◌ as append, count}
use tracks.Common.Dict
use tracks.Common.Dict.{Dict}
use tracks.Common.Result.{Result, ok, err}

pub record Blob : Type 0 where
  pub key : String
  pub filename : String
  pub content_type : String
  pub byte_size : ℕ
  pub checksum : String
  pub status : String

-- The files by their paths, and the rows of the table.
pub record Storage : Type 0 where
  pub files : Dict String String
  pub blobs : List Blob

-- How a `Put` ends: a failed one leaves what was copied until then, if anything.
pub data Written : Type 0 where
  written : Written
  failed : (left : Option String) → Written

-- The disk, the database, and the functions of the libraries: the sum of the bytes as text, their
-- number, and `filepath.Join` of the root of the driver with a key, which cleans the path.
pub record StorageEnv : Type 0 where
  pub write : String → Written
  pub remove : String → Bool
  pub create : Blob → Bool
  pub checksum : String → String
  pub size : String → ℕ
  pub join_root : String → String

-- What the extractor of the tenant gives, if there is one: an error or an id.
pub data Extracted : Type 0 where
  no_extractor extractor_error : Extracted
  tenant : String → Extracted

-- `getStorageKey`
unfoldable pub storage_key : Extracted → String → String
storage_key no_extractor key = key
storage_key extractor_error key = key
storage_key (tenant id) key =
    if id == "" then key else append "tenants/" (append id (append "/blobs/" key))

-- `Put` of the driver, on the files.
abbrev pub put_file : Written → String → String → Dict String String → Dict String String
put_file written path content files = Dict.put path content files
put_file (failed none) path content files = files
put_file (failed (some left)) path content files = Dict.put path left files

-- `Delete` of the driver.
abbrev pub remove_file : Bool → String → Dict String String → Dict String String
remove_file true path files = Dict.delete path files
remove_file false path files = files

module _ (env : StorageEnv) where
  abbrev pub new_blob : (key content filename content_type : String) → Blob
  new_blob key content filename content_type = record {
    key = key;
    filename = filename;
    content_type = content_type;
    byte_size = env.size content;
    checksum = env.checksum content;
    status = "active";
  }

  -- The row of an uploaded file; where it cannot be written, the file is removed.
  abbrev pub record_blob :
      (created : Bool) (path : String) → Blob → Storage → Storage × Result String Blob
  record_blob true path blob s = (record s { blobs = s.blobs ++ blob ∷ [] }, ok blob)
  record_blob false path blob s =
      (record s { files = remove_file (env.remove path) path s.files }, err "create")

  abbrev pub after_put :
      Written → (created : Bool) (path : String) → Blob → Storage → Storage × Result String Blob
  after_put written created path blob s = record_blob created path blob s
  after_put (failed left) created path blob s = (s, err "upload")

  -- `Attach`, with the key that is made for the file.
  unfoldable pub attach :
      Extracted
      → (key content filename content_type : String) → Storage
      → Storage × Result String Blob
  unfolding storage_key
  attach extracted key content filename content_type s =
      let path = env.join_root (storage_key extracted key) in
      let blob = new_blob key content filename content_type in
      after_put (env.write path) (env.create blob) path blob
        (record s { files = put_file (env.write path) path content s.files })

-- `Get`, where `none` is the error of `os.Open`.
unfoldable pub get_file : StorageEnv → Extracted → Blob → Storage → Option String
unfolding storage_key
get_file env extracted blob s = Dict.get (env.join_root (storage_key extracted blob.key)) s.files

-- `URL` of the driver for the disk.
unfoldable pub url : Extracted → Blob → String
unfolding storage_key
url extracted blob = append "/storage/" (storage_key extracted blob.key)
