-- ===== src/Examples/Documents.antt =====
-- DID URLs, a document, and an action that is performed once.
use didem.Base.{ℕ, suc, Bool, true, [], ok, err, Exec, ◌≡◌, refl, nat_eq, string_eq, invalid}
use didem.Resync.{Once}
use didem.W3cdid.Url.{Url, text_bytes, method, id, query, fragment}

abbrev no_authority : Url → Bool
no_authority _ = true

url_parts :
    (method no_authority (text_bytes "did:example:1234:abc?h=1#b1") ≡ ok (text_bytes "example"))
    × (id no_authority (text_bytes "did:example:1234:abc?h=1#b1") ≡ ok (text_bytes "1234:abc"))
    × (query no_authority (text_bytes "did:example:1234:abc?h=1#b1") ≡ ok (text_bytes "h=1"))
    × (fragment no_authority (text_bytes "did:example:1234:abc?h=1#b1") ≡ ok (text_bytes "b1"))
unfolding method id query fragment
url_parts = (refl, refl, refl, refl)

url_parts_marks :
    (fragment no_authority (text_bytes "aaa:bbb:ccc##b=1") ≡ ok (text_bytes "#b=1"))
    × (query no_authority (text_bytes "aaa:bbb:ccc??b=1") ≡ ok (text_bytes "?b=1"))
    × (method no_authority (text_bytes "did") ≡ ok [])
    × (id no_authority (text_bytes "did:abc:/key1?h=1#b1") ≡ ok (text_bytes "/key1"))
unfolding method id query fragment
url_parts_marks = (refl, refl, refl, refl)

-- an action that counts, and the flag beside it
abbrev count : Exec (Once × ℕ) Unit
count (o, n) = (ok tt, (o, suc n))

abbrev fail_once : Exec (Once × ℕ) Unit
fail_once (o, n) = (err invalid, (o, n))

abbrev flag : Once × ℕ → Once
flag s = s.0

abbrev set_flag : Once → Once × ℕ → Once × ℕ
set_flag o s = (o, s.1)
