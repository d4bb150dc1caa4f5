-- ===== src/Agreement/Static.antt =====
-- The two servers serve the same static files: `handleStaticFileRequest` (src/chatroom_server.cpp)
-- and `handleStaticFile` (src/chatroom_server_epoll.cpp), with their two tests of a suffix.
use chatroom_server.Prelude.{
  ◌-◌, ◌≡◌, ◌++◌, ◌∙◌, ap, refl, sym, subst, true, false, Bool-cases, inl, inr, Bytes, bytes,
  bytes_eq, bytes_eq_iff, bytes_eq_refl, decimal, drop, take, take-append-drop, length,
  length-append, leb, [], ◌∷◌, some, Option-cases, arith,
}
use mathlib.Core.List.{reverse, reverse-append, reverse-reverse}
use chatroom_server.Table.{lookup, insert, lookup-insert}
use chatroom_server.Platform.{Platform}
use chatroom_server.Http.Find.{starts_with, starts_with-append}
use chatroom_server.Http.Response.{HttpResponse, set_header, set_body}
use chatroom_server.Threaded.Static as threaded_static
use chatroom_server.Epoll.Http as epoll_http
use chatroom_server.Epoll.Static as epoll_static

drop-append : (p s : Bytes) → drop (length p) (p ++ s) ≡ s
drop-append [] s = refl
drop-append (x ∷ p) s = drop-append p s

abbrev EndsWith : Bytes → Bytes → Type 0
EndsWith s suffix = (p : Bytes) × (s ≡ p ++ suffix)

suffix_length : (p suffix : Bytes) → leb (length suffix) (length (p ++ suffix)) ≡ true
suffix_length p suffix = rw (length-append p suffix) (ground arith)

-- Both tests say that the text ends with the suffix.
threaded_sound : (s suffix : Bytes) → threaded_static.ends_with s suffix ≡ true → EndsWith s suffix
unfolding threaded_static.ends_with
threaded_sound s suffix h =
    let n = length s - length suffix in
    let tail : drop n s ≡ suffix = (bytes_eq_iff (drop n s) suffix).0 (ground arith) in
    (take n s, sym (take-append-drop n s) ∙ ap (take n s ++◌) tail)

threaded_suffix : (p suffix : Bytes) → threaded_static.ends_with (p ++ suffix) suffix ≡ true
unfolding threaded_static.ends_with
threaded_suffix p suffix =
    let size : length (p ++ suffix) - length suffix ≡ length p =
      omega (arith, length-append p suffix) in
    rw (suffix_length p suffix, size, drop-append p suffix) (bytes_eq_refl suffix)

starts_with_sound : (qs s : Bytes) → starts_with qs s ≡ true → (t : Bytes) × (s ≡ qs ++ t)
unfolding starts_with
starts_with_sound [] s h = (s, refl)
starts_with_sound (q ∷ qs) [] h = ground arith
starts_with_sound (q ∷ qs) (x ∷ s) h =
    let (t, e) = starts_with_sound qs s (ground arith) in
    let first : x ≡ q = ground arith in (t, cc (e, first))

epoll_sound : (s suffix : Bytes) → epoll_http.ends_with s suffix ≡ true → EndsWith s suffix
unfolding epoll_http.ends_with
epoll_sound s suffix h =
    let (t, e) = starts_with_sound (reverse suffix) (reverse s) (ground arith) in
    (
      reverse t,
      sym (reverse-reverse s)
          ∙ ap reverse e
          ∙ reverse-append (reverse suffix) t
          ∙ ap (reverse t ++◌) (reverse-reverse suffix),
    )

epoll_suffix : (p suffix : Bytes) → epoll_http.ends_with (p ++ suffix) suffix ≡ true
unfolding epoll_http.ends_with
epoll_suffix p suffix =
    rw (suffix_length p suffix, reverse-append p suffix)
      (starts_with-append (reverse suffix) (reverse p))

-- The suffix test of the thread pool's server, with `compare`, and that of the event loop's server,
-- backwards with `std::equal`, agree on all texts.
pub ends_with_agree :
    (s suffix : Bytes) → threaded_static.ends_with s suffix ≡ epoll_http.ends_with s suffix
ends_with_agree s suffix = elim (Bool-cases (threaded_static.ends_with s suffix)) [
  | inl t ↦
      let (p, e) = threaded_sound s suffix t in
      t ∙ sym (subst (λ u. epoll_http.ends_with u suffix ≡ true) (sym e) (epoll_suffix p suffix))
  | inr f ↦ elim (Bool-cases (epoll_http.ends_with s suffix)) [
    | inr g ↦ f ∙ sym g
    | inl t ↦
        let (p, e) = epoll_sound s suffix t in
        let threaded =
          subst (λ u. threaded_static.ends_with u suffix ≡ true) (sym e)
            (threaded_suffix p suffix) in
        ground (arith, f, threaded)
  ]
]

content_type_agree :
    (f : Bytes)
    → threaded_static.ends_with f (bytes ".ico") ≡ false
    → threaded_static.content_type_of f ≡ epoll_http.get_content_type f
unfolding threaded_static.content_type_of epoll_http.get_content_type
content_type_agree f h = ground (
  arith,
  h,
  ends_with_agree f (bytes ".html"),
  ends_with_agree f (bytes ".htm"),
  ends_with_agree f (bytes ".css"),
  ends_with_agree f (bytes ".js"),
  ends_with_agree f (bytes ".json"),
  ends_with_agree f (bytes ".png"),
  ends_with_agree f (bytes ".jpg"),
  ends_with_agree f (bytes ".jpeg"),
  ends_with_agree f (bytes ".ico"),
)

names-differ : bytes_eq (bytes "Content-Length") (bytes "Content-Type") ≡ false
unfolding bytes bytes_eq
names-differ = refl

-- A response and a result with the same content and content type.
abbrev pub Same : epoll_static.StaticFileResult → HttpResponse → Type 0
Same result response =
    (result.content ≡ response.body)
    × (lookup (bytes "Content-Type") response.headers ≡ some result.content_type)

static_response-Same :
    (content_type content : Bytes) (r : HttpResponse)
    → Same
        (record { content = content; content_type = content_type })
        (threaded_static.static_response content_type content r)
unfolding threaded_static.static_response set_body set_header
static_response-Same content_type content r =
    let hs = insert (bytes "Content-Type") content_type r.headers in
    (
      refl,
      ground (
        arith,
        names-differ,
        bytes_eq_refl (bytes "Content-Type"),
        lookup-insert (bytes "Content-Length") (bytes "Content-Type") (decimal (length content)) hs,
        lookup-insert (bytes "Content-Type") (bytes "Content-Type") content_type r.headers,
      ),
    )

module _ (P : Platform) (dir : Bytes) where
  -- For every path, the content that the event loop's server sends is the body of the thread pool's
  -- server's response, and it sends it with the same content type, unless the file asked for ends
  -- with ".ico".
  pub static_agree :
      (path : Bytes)
      → threaded_static.ends_with (threaded_static.requested_file_of path) (bytes ".ico") ≡ false
      → Same
          (epoll_static.handle_static_file P dir path)
          (threaded_static.handle_static_file_request P dir path)
  unfolding threaded_static.handle_static_file_request epoll_static.handle_static_file
      threaded_static.requested_file_of
  static_agree path h =
      let file = threaded_static.requested_file_of path in
      let full_path = P.files.join dir (drop 1 file) in
      elim (Bool-cases (P.files.exists full_path)) [
        | inr missing ↦ rw missing (static_response-Same (bytes "text/html") _ _)
        | inl there ↦ elim (Option-cases (P.files.read full_path)) [
          | inl closed ↦ rw (there, closed) (static_response-Same (bytes "text/html") _ _)
          | inr (text, opened) ↦
              rw (there, opened, sym (content_type_agree file h))
                (static_response-Same (threaded_static.content_type_of file) text _)
        ]
      ]
