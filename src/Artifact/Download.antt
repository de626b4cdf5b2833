-- ===== src/Artifact/Download.antt =====
-- asty/internal/infra/artifact/downloader.go. The host fetches a URL, keeps a copy in a temporary file
-- and hashes it; `hash` is the SHA-256 in hexadecimal digits, `unpack` the gzip and tar readers.
use asty.Common.{
  ℕ, Bool, true, false, ◌||◌, ◌&&◌, not, ◌==◌, Option, none, some, [], Text, codes, same,
  has_prefix, if◌then◌else◌, drop, length,
}
use asty.Broker.Conf.{contains}
use asty.Broker.Files.{base_of}
use asty.Netutil.Origin.{trim_space}
use asty.Artifact.Paths.{join}
use asty.Artifact.Extract.{Archive, Fault, FileSystem, extract}

pub data DownloadError : Type 0 where
  bad_scheme : DownloadError
  no_temp_file : DownloadError
  no_response : DownloadError
  bad_status : ℕ → DownloadError
  cut_off : DownloadError
  mismatch : Text → Text → DownloadError
  not_extracted : Fault → DownloadError
  no_source : DownloadError
  no_target : DownloadError

-- What a GET comes to: no response, or a status with a body that was read to its end or not.
pub data Fetched : Type 0 where
  unanswered : Fetched
  answered : ℕ → Option Text → Fetched

unfoldable pub trim_prefix : Text → Text → Text
trim_prefix t prefix = if has_prefix t prefix then drop (length prefix) t else t

unfoldable pub checksum_is_specified : Text → Bool
unfolding contains
checksum_is_specified checksum =
    if same (trim_space checksum) []
    then false
    else if contains (trim_space checksum) (codes "${")
    then false
    else true

unfoldable pub is_local : Text → Bool
is_local url = has_prefix url (codes "file://") || same url (codes "local")

module _ {B : Type 0} (fs : FileSystem B) (temp_file : B → Bool × B)
    (fetch : Text → B → Fetched × B) (read_file : Text → B → Option Text) (hash : Text → Text)
    (unpack : Text → Option Archive) where
  unfoldable pub fault_of : Option Fault × B → Option DownloadError × B
  fault_of (none, b) = (none, b)
  fault_of (some f, b) = (some (not_extracted f), b)

  -- The body is there: its checksum, and the extraction.
  unfoldable pub verify : Text → Text → Text → B → Option DownloadError × B
  unfolding fault_of checksum_is_specified trim_prefix
  verify checksum dest body b =
      let expected = trim_prefix checksum (codes "sha256:") in
      let done = fault_of (extract fs dest (unpack body) b) in
      if checksum_is_specified checksum && not (same (hash body) expected)
      then (some (mismatch expected (hash body)), b)
      else done

  unfoldable pub on_response : Text → Text → Fetched × B → Option DownloadError × B
  unfolding verify
  on_response checksum dest (unanswered, b) = (some no_response, b)
  on_response checksum dest (answered status none, b) =
      if status == 200 then (some cut_off, b) else (some (bad_status status), b)
  on_response checksum dest (answered status (some body), b) =
      let done = verify checksum dest body b in
      if status == 200 then done else (some (bad_status status), b)

  unfoldable pub fetch_with : Text → Text → Text → Bool × B → Option DownloadError × B
  unfolding on_response
  fetch_with url checksum dest (false, b) = (some no_temp_file, b)
  fetch_with url checksum dest (true, b) = on_response checksum dest (fetch url b)

  unfoldable pub copied : Text → Option Text → Bool × B → Option DownloadError × B
  copied path content (false, b) = (some no_target, b)
  copied path none (true, b) = (some no_source, b)
  copied path (some content) (true, b) =
      let (ok, b') = fs.write_file path content b in ((if ok then none else some no_target), b')

  -- `copyLocal`: the file of a `file://` URL, or the binary of that name under `bin`.
  unfoldable pub copy_local : Text → Text → B → Option DownloadError × B
  unfolding copied trim_prefix join base_of
  copy_local url dest b =
      let name = base_of dest in
      let source =
        if has_prefix url (codes "file://")
        then trim_prefix url (codes "file://")
        else join (codes "bin") name in
      let made = fs.mkdir_all dest b in copied (join dest name) (read_file source made.1) made

  unfoldable pub download : Text → Text → Text → B → Option DownloadError × B
  unfolding is_local copy_local fetch_with
  download url checksum dest b =
      let local = copy_local url dest b in
      let fetched = fetch_with url checksum dest (temp_file b) in
      if is_local url
      then local
      else if has_prefix url (codes "https://")
      then fetched
      else (some bad_scheme, b)
