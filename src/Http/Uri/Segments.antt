-- ===== src/Http/Uri/Segments.antt =====
-- How `URIParser` of include/crab/http/query_parser.hxx reads a URI with no user information, port,
-- query or percent sign, and what it makes of the dot segments of its path.
use crablib.Base.{
  false, List, [], ◌∷◌, ◌++◌, Bytes, codes, equal, ok, ◌≡◌, refl, ap, sym, ◌∙◌, inl, inr,
  Bool-cases, append_assoc, append-nil, if◌then◌else◌, ◌==◌,
}
use crablib.Http.Uri.{
  State, UriParser, initial, pop_back, persist_path_component, consume, append_components,
  consume_end, parse, parse_uri,
}

-- The bytes that may stand in a scheme, a host and a segment.
abbrev pub IsScheme : Bytes → Type 0
IsScheme [] = Unit
IsScheme (c ∷ cs) = ((c == b':') ≡ false) × IsScheme cs

abbrev pub IsHost : Bytes → Type 0
IsHost [] = Unit
IsHost (c ∷ cs) =
    (((c == b'@') ≡ false) × ((c == b'/') ≡ false) × ((c == b':') ≡ false)) × IsHost cs

abbrev pub IsSegment : Bytes → Type 0
IsSegment [] = Unit
IsSegment (c ∷ cs) =
    (((c == b'%') ≡ false) × ((c == b'?') ≡ false) × ((c == b'/') ≡ false)) × IsSegment cs

abbrev pub AllSegments : List Bytes → Type 0
AllSegments [] = Unit
AllSegments (s ∷ ss) = IsSegment s × AllSegments ss

-- A path: its segments, each behind a '/', then the last one.
abbrev pub path_text : List Bytes → Bytes → Bytes
path_text [] last = b'/' ∷ last
path_text (s ∷ ss) last = b'/' ∷ (s ++ path_text ss last)

-- The segments with ".." taken as a step up and "." as none, from a path that is done.
unfoldable pub resolve : List Bytes → List Bytes → List Bytes
unfolding pop_back
resolve done [] = done
resolve done (s ∷ ss) =
    resolve
      (if equal s (codes "..")
        then pop_back done
        else if equal s (codes ".")
        then done
        else done ++ s ∷ [])
      ss

-- No segment of the list is "." or "..".
abbrev pub AllPlain : List Bytes → Type 0
AllPlain [] = Unit
AllPlain (c ∷ cs) = ((equal c (codes "..") ≡ false) × (equal c (codes ".") ≡ false)) × AllPlain cs

AllPlain-snoc :
    (cs : List Bytes) (c : Bytes)
    → AllPlain cs
    → equal c (codes "..") ≡ false
    → equal c (codes ".") ≡ false
    → AllPlain (cs ++ c ∷ [])
AllPlain-snoc [] c h u v = ((u, v), tt)
AllPlain-snoc (d ∷ cs) c (e, h) u v = (e, AllPlain-snoc cs c h u v)

AllPlain-pop_back : (cs : List Bytes) → AllPlain cs → AllPlain (pop_back cs)
unfolding pop_back
AllPlain-pop_back [] h = tt
AllPlain-pop_back (c ∷ []) h = tt
AllPlain-pop_back (c ∷ d ∷ cs) (e, h) = (e, AllPlain-pop_back (d ∷ cs) h)

resolve-AllPlain : (done ss : List Bytes) → AllPlain done → AllPlain (resolve done ss)
unfolding resolve
resolve-AllPlain done [] h = h
resolve-AllPlain done (s ∷ ss) h = elim (Bool-cases (equal s (codes ".."))) [
  | inl up ↦ rw up (resolve-AllPlain (pop_back done) ss (AllPlain-pop_back done h))
  | inr not_up ↦ elim (Bool-cases (equal s (codes "."))) [
    | inl here ↦ rw (not_up, here) (resolve-AllPlain done ss h)
    | inr other ↦
        rw (not_up, other)
          (resolve-AllPlain (done ++ s ∷ []) ss (AllPlain-snoc done s h not_up other))
  ]
]

-- The parser in the parts of a URI.
abbrev in_scheme : Bytes → UriParser
in_scheme s = record initial { uri = record initial.uri { scheme = s } }

abbrev in_host : Bytes → Bytes → UriParser
in_host s h = record initial {
  uri = record initial.uri { scheme = s; host = h };
  state = State.host;
}

abbrev in_path : Bytes → Bytes → List Bytes → Bytes → UriParser
in_path s h done cur = record (in_host s h) {
  state = State.path;
  path_components_ = done;
  cur_path_ = cur;
}

scheme_read :
    (cs s rest : Bytes)
    → IsScheme cs
    → parse (in_scheme s) (cs ++ (codes "://" ++ rest)) ≡ parse (in_host (s ++ cs) []) rest
unfolding parse consume
scheme_read [] s rest h = ap (λ t. parse (in_host t []) rest) (sym (append-nil s))
scheme_read (c ∷ cs) s rest (e, h) =
    rw (e, scheme_read cs (s ++ c ∷ []) rest h, append_assoc s (c ∷ []) cs)

host_read :
    (cs s host rest : Bytes)
    → IsHost cs
    → parse (in_host s host) (cs ++ (b'/' ∷ rest)) ≡ parse (in_path s (host ++ cs) [] []) rest
unfolding parse consume
host_read [] s host rest h = ap (λ t. parse (in_path s t [] []) rest) (sym (append-nil host))
host_read (c ∷ cs) s host rest ((e1, e2, e3), h) =
    rw (e1, e2, e3, host_read cs s (host ++ c ∷ []) rest h, append_assoc host (c ∷ []) cs)

module _ (s host : Bytes) where
  segment_read :
      (cs cur rest : Bytes) (done : List Bytes)
      → IsSegment cs
      → parse (in_path s host done cur) (cs ++ rest) ≡ parse (in_path s host done (cur ++ cs)) rest
  unfolding parse consume
  segment_read [] cur rest done h =
      ap (λ t. parse (in_path s host done t) rest) (sym (append-nil cur))
  segment_read (c ∷ cs) cur rest done ((e1, e2, e3), h) =
      rw (e1, e2, e3, segment_read cs (cur ++ c ∷ []) rest done h, append_assoc cur (c ∷ []) cs)

  -- A '/' takes the segment before it.
  slash_read :
      (cur rest : Bytes) (done : List Bytes)
      → parse (in_path s host done cur) (b'/' ∷ rest)
        ≡ parse (in_path s host (resolve done (cur ∷ [])) []) rest
  unfolding parse consume resolve persist_path_component
  slash_read cur rest done = refl

  path_read :
      (ss : List Bytes) (last cur : Bytes) (done : List Bytes)
      → AllSegments ss
      → IsSegment last
      → parse (in_path s host done cur) (path_text ss last)
        ≡ ok (in_path s host (resolve done (cur ∷ ss)) last)
  unfolding resolve
  path_read [] last cur done h l =
      slash_read cur last done
      ∙ ap (parse (in_path s host (resolve done (cur ∷ [])) [])) (sym (append-nil last))
      ∙ segment_read last [] [] (resolve done (cur ∷ [])) l
      ∙ (unfold parse in refl)
  path_read (x ∷ xs) last cur done (h, hs) l =
      slash_read cur (x ++ path_text xs last) done
      ∙ segment_read x [] (path_text xs last) (resolve done (cur ∷ [])) h
      ∙ path_read xs last x (resolve done (cur ∷ [])) hs l

  from_host :
      (ss : List Bytes) (last : Bytes)
      → AllSegments ss
      → IsSegment last
      → IsHost host
      → parse (in_host s []) (host ++ path_text ss last) ≡ ok (in_path s host (resolve [] ss) last)
  unfolding resolve
  from_host [] last h l i =
      host_read host s [] last i
      ∙ ap (parse (in_path s host [] [])) (sym (append-nil last))
      ∙ segment_read last [] [] [] l
      ∙ (unfold parse in refl)
  from_host (x ∷ xs) last (h, hs) l i =
      host_read host s [] (x ++ path_text xs last) i
      ∙ segment_read x [] (path_text xs last) [] h
      ∙ path_read xs last x [] hs l

written_path :
    (ss : List Bytes) (out last : Bytes)
    → append_components out ss ++ b'/' ∷ last ≡ out ++ path_text ss last
unfolding append_components
written_path [] out last = refl
written_path (x ∷ xs) out last =
    written_path xs (out ++ b'/' ∷ x) last ∙ append_assoc out (b'/' ∷ x) (path_text xs last)

-- A URI of a scheme with no ':', a host with no '@', '/' or ':', and a path whose segments have no
-- '%', '?' or '/' is parsed into these parts. In the path each segment but the last is resolved:
-- "." is left out, and ".." takes the segment before it away if there is one, so that neither is
-- among them. The last one is kept as it is, also where it is "." or "..". A ".." with no segment
-- before it changes nothing, as the comment in persist_path_component says; it is no error, though
-- test_bad_uri of test/test_http_parsers.cpp demands one.
pub parse_uri-path_text :
    (scheme host last : Bytes) (ss : List Bytes)
    → IsScheme scheme
    → IsHost host
    → AllSegments ss
    → IsSegment last
    → (parse_uri (scheme ++ (codes "://" ++ (host ++ path_text ss last)))
        ≡ ok (record {
          scheme = scheme;
          user_info = [];
          host = host;
          port = [];
          path = path_text (resolve [] ss) last;
          query = [];
        }))
      × AllPlain (resolve [] ss)
unfolding parse_uri consume_end
parse_uri-path_text scheme host last ss a b c d =
    let read =
      scheme_read scheme [] (host ++ path_text ss last) a ∙ from_host scheme host ss last c d b in
    (rw (read, written_path (resolve [] ss) [] last), resolve-AllPlain [] ss tt)
