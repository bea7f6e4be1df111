-- ===== src/Http/Responses.antt =====
-- The operations of http/http_response.h that the handlers chain: what each leaves of the others.
use bmcweb.Prelude.{
  ℕ, ◌≡◌, refl, ap, ◌∙◌, inl, inr, true, false, some, Bytes, bytes_eq, bytes_eq_iff, if◌then◌else◌,
  arith, Option-cases,
}
use bmcweb.Prelude.Assoc.{lookup, lookup-emplace, lookup-assign, lookup-assign_self}
use bmcweb.Http.{Response, result, add_header, end}

-- The completion handler ran exactly if the response is completed, and then once.
abbrev pub IsCounted : Response → Type 0
IsCounted res = res.completions ≡ (if res.completed then 1 else 0)

pub end_lem :
    (res : Response)
    → ((end res).completed ≡ true)
      × ((end res).status ≡ res.status)
      × ((end res).headers ≡ res.headers)
      × (IsCounted res → IsCounted (end res))
unfolding end
end_lem res = (ground arith, ground arith, ground arith, λ h. ground arith)

pub result_lem :
    (v : ℕ) (res : Response)
    → ((result v res).status ≡ v)
      × ((result v res).completed ≡ res.completed)
      × ((result v res).headers ≡ res.headers)
      × ((result v res).completions ≡ res.completions)
unfolding result
result_lem v res = (refl, refl, refl, refl)

pub add_header_lem :
    (key value : Bytes) (res : Response)
    → (lookup key (add_header key value res).headers ≡ some value)
      × ((add_header key value res).status ≡ res.status)
      × ((add_header key value res).completed ≡ res.completed)
      × ((add_header key value res).completions ≡ res.completions)
unfolding add_header
add_header_lem key value res = elim (Option-cases (lookup key res.headers)) [
  | inl e ↦
      rw (e, add_header)
        (
          ground (arith, lookup-emplace key key value res.headers, bytes_eq_iff key key),
          refl,
          refl,
          refl,
        )
  | inr (old, e) ↦
      rw (e, add_header) (lookup-assign_self key value old res.headers e, refl, refl, refl)
]

-- `res.result(v); res.end();`
pub end-result :
    (v : ℕ) (res : Response)
    → IsCounted res
    → ((end (result v res)).completed ≡ true)
      × IsCounted (end (result v res))
      × ((end (result v res)).status ≡ v)
end-result v res c = (
  (end_lem (result v res)).0,
  (end_lem (result v res)).3 (ground (arith, result_lem v res)),
  ground (arith, end_lem (result v res), result_lem v res),
)

-- `res.result(v); res.addHeader(key, value); res.end();`
pub end-add_header-result :
    (key value : Bytes) (v : ℕ) (res : Response)
    → IsCounted res
    → let out = end (add_header key value (result v res)) in
      (out.completed ≡ true)
      × IsCounted out
      × (out.status ≡ v)
      × (lookup key out.headers ≡ some value)
end-add_header-result key value v res c = (
  (end_lem (add_header key value (result v res))).0,
  (end_lem (add_header key value (result v res))).3
      (ground (arith, add_header_lem key value (result v res), result_lem v res)),
  ground (
    arith,
    end_lem (add_header key value (result v res)),
    add_header_lem key value (result v res),
    result_lem v res,
  ),
  ground (
    arith,
    end_lem (add_header key value (result v res)),
    add_header_lem key value (result v res),
  ),
)

pub end_json : (res : Response) → (end res).json_value ≡ res.json_value
unfolding end
end_json res = ground arith

-- Setting a header leaves the others.
pub add_header_ne :
    (key other value : Bytes) (res : Response)
    → bytes_eq key other ≡ false
    → lookup other (add_header key value res).headers ≡ lookup other res.headers
unfolding add_header
add_header_ne key other value res ne = elim (Option-cases (lookup key res.headers)) [
  | inl e ↦ rw (e, add_header) (ground (arith, lookup-emplace key other value res.headers))
  | inr (old, e) ↦ rw (e, add_header) (ground (arith, lookup-assign key other value res.headers))
]

-- What ends a response leaves its headers, but for the one that it sets.
pub end-result_header :
    (other : Bytes) (v : ℕ) (res : Response)
    → lookup other (end (result v res)).headers ≡ lookup other res.headers
end-result_header other v res =
    ap (lookup other) ((end_lem (result v res)).2 ∙ (result_lem v res).2)

pub end-add_header-result_ne :
    (key other value : Bytes) (v : ℕ) (res : Response)
    → bytes_eq key other ≡ false
    → lookup other (end (add_header key value (result v res))).headers ≡ lookup other res.headers
end-add_header-result_ne key other value v res ne =
    ap (lookup other) (end_lem (add_header key value (result v res))).2
    ∙ add_header_ne key other value (result v res) ne
    ∙ ap (lookup other) (result_lem v res).2
