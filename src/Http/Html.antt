-- ===== src/Http/Html.antt =====
-- `escapeHtml` and `convertToLinks` of http/utility.h, and `prettyPrintJson` of
-- http/http_connection.h: the page that a browser gets of a JSON document. The dump of the document
-- and the replacement by a regular expression are parameters.
use bmcweb.Prelude.{ℕ, [], ◌∷◌, ◌++◌, Bytes, codes, String, if◌then◌else◌, ◌==◌}
use bmcweb.Http.{JsonMembers, Response, add_header}

unfoldable pub escape_char : ℕ → Bytes
escape_char c =
    if c == b'&'
    then codes "&amp;"
    else if c == b'"'
    then codes "&quot;"
    else if c == b'\''
    then codes "&apos;"
    else if c == b'<'
    then codes "&lt;"
    else if c == b'>'
    then codes "&gt;"
    else c ∷ []

unfoldable pub escape_html : Bytes → Bytes
escape_html [] = []
escape_html (c ∷ text) = escape_char c ++ escape_html text

-- `std::regex_replace`: the pattern, the format and the text.
abbrev pub RegexReplace : Type 0
RegexReplace = String → String → Bytes → Bytes

pub convert_to_links : RegexReplace → Bytes → Bytes
convert_to_links regex_replace s =
    regex_replace "(&quot;((Uri))&quot;[ \\n]*:[ \\n]*)(&quot;((?!&quot;).*)&quot;)"
      "$1<a href=\"$5\">$4</a>"
      (regex_replace
        "(&quot;Members@odata\\.((nextLink))&quot;[ \\n]*:[ \\n]*)(&quot;((?!&quot;).*)&quot;)"
        "$1<a href=\"$5\">$4</a>"
        (regex_replace
          "(&quot;@odata\\.((id)|(Context))&quot;[ \\n]*:[ \\n]*)(&quot;((?!&quot;).*)&quot;)"
          "$1<a href=\"$6\">$5</a>" s))

abbrev pub page_head : Bytes
page_head =
    codes "<html>\n<head>\n<title>Redfish API</title>\n"
    ++ codes "<link rel=\"stylesheet\" type=\"text/css\" href=\"/styles/default.css\">\n"
    ++ codes "<script src=\"/highlight.pack.js\"></script>"
    ++ codes "<script>hljs.initHighlightingOnLoad();</script></head>\n<body>\n"
    ++ codes "<div style=\"max-width: 576px;margin:0 auto;\">\n"
    ++ codes
        "<img src=\"/DMTF_Redfish_logo_2017.svg\" alt=\"redfish\" height=\"406px\" width=\"576px\">\n"
    ++ codes "<br>\n<pre>\n<code class=\"json\">"

abbrev pub page_foot : Bytes
page_foot = codes "</code>\n</pre>\n</div>\n</body>\n</html>\n"

unfoldable pub pretty_print_json : RegexReplace → (ℕ → JsonMembers → Bytes) → Response → Response
pretty_print_json regex_replace dump res =
    let value = convert_to_links regex_replace (escape_html (dump 4 res.json_value)) in
    add_header (codes "Content-Type") (codes "text/html;charset=UTF-8")
      (record res { body = page_head ++ value ++ page_foot })
