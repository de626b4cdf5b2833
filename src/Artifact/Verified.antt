-- ===== src/Artifact/Verified.antt =====
-- asty/internal/infra/artifact/downloader.go: what a download that succeeds has checked.
use asty.Common.{
  ◌≡◌, refl, ◌∙◌, ap, ◌⊎◌, inl, inr, Bool, true, false, Option, none, some, Text, codes, arith,
  same_iff, has_prefix, Bool-cases,
}
use asty.Artifact.Extract.{Archive, Fault, FileSystem, extract}
use asty.Artifact.Download.{
  Fetched, unanswered, answered, trim_prefix, checksum_is_specified, is_local, fault_of, verify,
  on_response, fetch_with, copy_local, download,
}

module _ {B : Type 0} (fs : FileSystem B) (temp_file : B → Bool × B)
    (fetch : Text → B → Fetched × B) (read_file : Text → B → Option Text) (hash : Text → Text)
    (unpack : Text → Option Archive) where
  -- A fetched body that was checked against its sum and extracted.
  pub record IsVerified (url checksum dest : Text) (b b' : B) : Type 0 where
    pub secure : has_prefix url (codes "https://") ≡ true
    pub body : Text
    pub fetched : (fetch url (temp_file b).1).0 ≡ answered 200 (some body)
    pub summed :
        (checksum_is_specified checksum ≡ false)
        ⊎ (hash body ≡ trim_prefix checksum (codes "sha256:"))
    pub extracted : extract fs dest (unpack body) (fetch url (temp_file b).1).1 ≡ (none, b')

  fault_of-none :
      (r : Option Fault × B) (b' : B)
      → fault_of fs temp_file fetch read_file hash unpack r ≡ (none, b')
      → r ≡ (none, b')
  unfolding fault_of
  fault_of-none (none, b) b' h = ground (arith, h)
  fault_of-none (some f, b) b' h = ground (arith, h)

  verify-none :
      (checksum dest body : Text) (b b' : B)
      → verify fs temp_file fetch read_file hash unpack checksum dest body b ≡ (none, b')
      → ((checksum_is_specified checksum ≡ false)
          ⊎ (hash body ≡ trim_prefix checksum (codes "sha256:")))
        × (fault_of fs temp_file fetch read_file hash unpack (extract fs dest (unpack body) b)
            ≡ (none, b'))
  unfolding verify
  verify-none checksum dest body b b' h =
      ground (arith, h, same_iff (hash body) (trim_prefix checksum (codes "sha256:")))

  on_response-IsVerified :
      (url checksum dest : Text) (b b' : B) (r : Fetched × B)
      → has_prefix url (codes "https://") ≡ true
      → fetch url (temp_file b).1 ≡ r
      → on_response fs temp_file fetch read_file hash unpack checksum dest r ≡ (none, b')
      → IsVerified url checksum dest b b'
  unfolding on_response
  on_response-IsVerified url checksum dest b b' (unanswered, b₁) s e h = ground (arith, h)
  on_response-IsVerified url checksum dest b b' (answered status none, b₁) s e h = ground (arith, h)
  on_response-IsVerified url checksum dest b b' (answered status (some body), b₁) s e h =
      let k : (status ≡ 200)
          × (verify fs temp_file fetch read_file hash unpack checksum dest body b₁ ≡ (none, b')) =
        ground (arith, h) in
      let v = verify-none checksum dest body b₁ b' k.1 in
      record {
        secure = s;
        body = body;
        fetched = ap (λ r. r.0) e ∙ ap (λ n. answered n (some body)) k.0;
        summed = v.0;
        extracted = ap (λ r. extract fs dest (unpack body) r.1) e ∙ fault_of-none _ b' v.1;
      }

  fetch_with-IsVerified :
      (url checksum dest : Text) (b b' : B) (r : Bool × B)
      → has_prefix url (codes "https://") ≡ true
      → temp_file b ≡ r
      → fetch_with fs temp_file fetch read_file hash unpack url checksum dest r ≡ (none, b')
      → IsVerified url checksum dest b b'
  unfolding fetch_with
  fetch_with-IsVerified url checksum dest b b' (false, b₁) s e h = ground (arith, h)
  fetch_with-IsVerified url checksum dest b b' (true, b₁) s e h =
      on_response-IsVerified url checksum dest b b' (fetch url b₁) s (ap (λ r. fetch url r.1) e) h

  -- A download that succeeds copied a local binary, or fetched the whole body over HTTPS with status 200
  -- and extracted it, and where a checksum is specified the body has it.
  pub download-IsVerified :
      (url checksum dest : Text) (b b' : B)
      → download fs temp_file fetch read_file hash unpack url checksum dest b ≡ (none, b')
      → ((is_local url ≡ true)
          × (copy_local fs temp_file fetch read_file hash unpack url dest b ≡ (none, b')))
        ⊎ IsVerified url checksum dest b b'
  unfolding download
  download-IsVerified url checksum dest b b' h = elim (Bool-cases (is_local url)) [
    | inl l ↦ inl (l, ground (arith, h, l))
    | inr l ↦ elim (Bool-cases (has_prefix url (codes "https://"))) [
      | inl s ↦ inr (
          fetch_with-IsVerified url checksum dest b b' (temp_file b) s refl
            (ground (arith, h, l, s)))
      | inr s ↦ absurd (ground (arith, h, l, s))
    ]
  ]
