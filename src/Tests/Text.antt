-- ===== src/Tests/Text.antt =====
-- Base64 and the URL encoding at small inputs.
use bmcweb.Prelude.{◌≡◌, true, codes, arith}
use bmcweb.Base64.{base64_encode, base64_decode}
use bmcweb.Base64.RoundTrip.{base64_decode-base64_encode}
use bmcweb.Http.{url_encode}
use bmcweb.Http.UrlEncode.{url_decode, url_decode-url_encode}

base64_decode-base64_encode_example :
    base64_decode (base64_encode (codes "root:0penBmc")) ≡ (true, codes "root:0penBmc")
base64_decode-base64_encode_example =
    base64_decode-base64_encode (codes "root:0penBmc") (omega arith)

url_decode-url_encode_example : url_decode (url_encode (codes "/a b")) ≡ codes "/a b"
url_decode-url_encode_example = url_decode-url_encode (codes "/a b") (omega arith)
