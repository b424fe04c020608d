-- ===== src/Http/Parse/RoundTrip.antt =====
-- A request that is put together by the rules of HTTP is taken apart into the same parts.
use esp32_wifi_manager.Common.{
  ℕ, suc, ◌+◌, ◌≡◌, ◌≢◌, refl, sym, ap, ◌∙◌, true, false, Option, none, some, List, [], ◌∷◌, ◌++◌,
  Bytes, length, length-append, append_assoc, append-nil, take, drop, All, ◌==◌, arith,
}
use esp32_wifi_manager.Http.{starts_with}
use esp32_wifi_manager.Http.Parse.{
  HttpReqInfo, strstr, strchr, cut_at, find_body, find_header, set_uri, parse,
}

abbrev pub Avoids : ℕ → Bytes → Type 0
Avoids c = All (λ d. d ≢ c)

-- The text up to a place that was found, and from there on.
take-length_add : (a t : Bytes) (k : ℕ) → take (length a + k) (a ++ t) ≡ a ++ take k t
take-length_add [] t k = let e : 0 + k ≡ k = omega arith in rw e refl
take-length_add (x ∷ a) t k =
    let e : suc (length a) + k ≡ suc (length a + k) = omega arith in
    rw e (ap (λ u. x ∷ u) (take-length_add a t k))

drop-length_add : (a t : Bytes) (k : ℕ) → drop (length a + k) (a ++ t) ≡ drop k t
drop-length_add [] t k = let e : 0 + k ≡ k = omega arith in rw e refl
drop-length_add (x ∷ a) t k =
    let e : suc (length a) + k ≡ suc (length a + k) = omega arith in rw e (drop-length_add a t k)

-- A byte that does not begin the needle is passed over.
strstr_pass :
    (c d n : ℕ) (p t : Bytes)
    → d ≢ c
    → strstr (c ∷ p) t ≡ some n
    → strstr (c ∷ p) (d ∷ t) ≡ some (suc n)
unfolding strstr
strstr_pass c d n p t h e = let other : (c == d) ≡ false = ground arith in rw (other, e) refl

strstr_skip :
    (c n : ℕ) (p a t : Bytes)
    → Avoids c a
    → strstr (c ∷ p) t ≡ some n
    → strstr (c ∷ p) (a ++ t) ≡ some (length a + n)
strstr_skip c n p [] t h e = e ∙ ap some (omega arith)
strstr_skip c n p (d ∷ a) t h e =
    strstr_pass c d (length a + n) p (a ++ t) h.0 (strstr_skip c n p a t h.1 e)
    ∙ ap some (omega arith)

strchr-append : (c : ℕ) (a t : Bytes) → Avoids c a → strchr c (a ++ c ∷ t) ≡ some (length a)
unfolding strchr
strchr-append c [] t h = let same : (c == c) ≡ true = ground arith in rw same refl
strchr-append c (d ∷ a) t h =
    let other : (d == c) ≡ false = ground (arith, h.0) in rw (other, strchr-append c a t h.1) refl

strchr-none : (c : ℕ) (a : Bytes) → Avoids c a → strchr c a ≡ none
unfolding strchr
strchr-none c [] h = refl
strchr-none c (d ∷ a) h =
    let other : (d == c) ≡ false = ground (arith, h.0) in rw (other, strchr-none c a h.1) refl

cut_char :
    (c : ℕ) (a t : Bytes)
    → Avoids c a
    → cut_at (strchr c (a ++ c ∷ t)) 0 1 (a ++ c ∷ t) ≡ some (a, t)
cut_char c a t h =
    rw
      (
        strchr-append c a t h,
        take-length_add a (c ∷ t) 0,
        drop-length_add a (c ∷ t) 1,
        append-nil a,
      )
      refl

-- The lines of a header, each with its end, before `rest`.
abbrev pub header_text : List Bytes → Bytes → Bytes
header_text [] rest = rest
header_text (l ∷ ls) rest = l ++ (13 ∷ 10 ∷ header_text ls rest)

header_text-append :
    (ls : List Bytes) (rest : Bytes) → header_text ls [] ++ rest ≡ header_text ls rest
header_text-append [] rest = refl
header_text-append (l ∷ ls) rest =
    append_assoc l (13 ∷ 10 ∷ header_text ls []) rest
    ∙ ap (λ t. l ++ (13 ∷ 10 ∷ t)) (header_text-append ls rest)

abbrev IsHeaderLine : Bytes → Type 0
IsHeaderLine [] = ⊥
IsHeaderLine (x ∷ l) = Avoids 13 (x ∷ l)

abbrev crlf_crlf : Bytes
crlf_crlf = 13 ∷ 10 ∷ 13 ∷ 10 ∷ []

strstr_miss :
    (p : Bytes) (c n : ℕ) (s : Bytes)
    → starts_with p (c ∷ s) ≡ false
    → strstr p s ≡ some n
    → strstr p (c ∷ s) ≡ some (suc n)
unfolding strstr
strstr_miss p c n s h e = rw (h, e) refl

no_empty_line : (x : ℕ) (t : Bytes) → x ≢ 13 → starts_with crlf_crlf (13 ∷ 10 ∷ x ∷ t) ≡ false
unfolding starts_with
no_empty_line x t h = let other : (13 == x) ≡ false = ground arith in rw other refl

-- The end of a line is no empty line where another line follows.
strstr_line :
    (x n : ℕ) (t : Bytes)
    → x ≢ 13
    → strstr crlf_crlf (x ∷ t) ≡ some n
    → strstr crlf_crlf (13 ∷ 10 ∷ x ∷ t) ≡ some (suc (suc n))
strstr_line x n t h e =
    strstr_miss crlf_crlf 13 (suc n) (10 ∷ x ∷ t) (no_empty_line x t h)
      (strstr_pass 13 10 n (10 ∷ 13 ∷ 10 ∷ []) (x ∷ t) (λ k. omega arith) e)

-- The place of the empty line behind a first line `a` and the header's lines.
abbrev EndsAt : Bytes → List Bytes → Bytes → Type 0
EndsAt a ls body =
    (m : ℕ) × (strstr crlf_crlf (a ++ (13 ∷ 10 ∷ header_text ls (13 ∷ 10 ∷ body))) ≡ some m)
    × (m + 2 ≡ length (a ++ (13 ∷ 10 ∷ header_text ls [])))

empty_line :
    (a : Bytes) (ls : List Bytes) (body : Bytes)
    → Avoids 13 a
    → All IsHeaderLine ls
    → EndsAt a ls body
empty_line a [] body h k = (
  length a + 0,
  strstr_skip 13 0 (10 ∷ 13 ∷ 10 ∷ []) a (13 ∷ 10 ∷ 13 ∷ 10 ∷ body) h
      (unfold strstr starts_with in refl),
  omega (arith, length-append {0} a (13 ∷ 10 ∷ [])),
)
empty_line a ([] ∷ ls) body h k = absurd k.0
empty_line a ((x ∷ l) ∷ ls) body h k =
    let (m, e, eq) = empty_line (x ∷ l) ls body k.0 k.1 in
    (
      length a + suc (suc m),
      strstr_skip 13 (suc (suc m)) (10 ∷ 13 ∷ 10 ∷ []) a
          (13 ∷ 10 ∷ header_text ((x ∷ l) ∷ ls) (13 ∷ 10 ∷ body)) h
          (strstr_line x m (l ++ (13 ∷ 10 ∷ header_text ls (13 ∷ 10 ∷ body))) k.0.0 e),
      omega (arith, eq, length-append {0} a (13 ∷ 10 ∷ header_text ((x ∷ l) ∷ ls) [])),
    )

abbrev pub uri_text : Bytes → Option Bytes → Bytes
uri_text uri none = uri
uri_text uri (some params) = uri ++ (b'?' ∷ params)

abbrev pub request_line : Bytes → Bytes → Option Bytes → Bytes → Bytes
request_line cmd uri params ver = cmd ++ (32 ∷ (uri_text uri params ++ (32 ∷ ver)))

abbrev pub request_text : Bytes → List Bytes → Bytes → Bytes
request_text line lines body = line ++ (13 ∷ 10 ∷ header_text lines (13 ∷ 10 ∷ body))

find_body-request_text :
    (line : Bytes) (lines : List Bytes) (body : Bytes)
    → Avoids 13 line
    → All IsHeaderLine lines
    → find_body (request_text line lines body)
      ≡ some (line ++ (13 ∷ 10 ∷ header_text lines []), body)
unfolding find_body
find_body-request_text line lines body h k =
    let text = line ++ (13 ∷ 10 ∷ header_text lines []) in
    let rest = 13 ∷ 10 ∷ body in
    let (m, e, eq) = empty_line line lines body h k in
    let whole : request_text line lines body ≡ text ++ rest = sym (
      append_assoc line (13 ∷ 10 ∷ header_text lines []) rest
      ∙ ap (λ t. line ++ (13 ∷ 10 ∷ t)) (header_text-append lines rest)) in
    let before : m + 2 ≡ length text + 0 = omega (arith, eq) in
    let behind : m + 4 ≡ length text + 2 = omega (arith, eq) in
    rw e (
      rw
        (
          before,
          behind,
          whole,
          take-length_add text rest 0,
          drop-length_add text rest 2,
          append-nil text,
        )
        refl)

find_header_line :
    (line rest : Bytes) → Avoids 13 line → find_header (line ++ (13 ∷ 10 ∷ rest)) ≡ (line, rest)
unfolding find_header
find_header_line line rest h =
    let e =
      strstr_skip 13 0 (10 ∷ []) line (13 ∷ 10 ∷ rest) h (unfold strstr starts_with in refl) in
    let zero_more : length line + 0 + 0 ≡ length line + 0 = omega arith in
    let two_more : length line + 0 + 2 ≡ length line + 2 = omega arith in
    rw
      (
        e,
        zero_more,
        two_more,
        take-length_add line (13 ∷ 10 ∷ rest) 0,
        drop-length_add line (13 ∷ 10 ∷ rest) 2,
        append-nil line,
      )
      refl

-- The parts of a request that HTTP allows: no part holds what ends it.
pub record IsRequestText (cmd uri : Bytes) (params : Option Bytes) (ver : Bytes)
    (lines : List Bytes) : Type 0 where
  pub cmd_word : Avoids 32 cmd
  pub uri_word : Avoids 32 (uri_text uri params)
  pub path_end : Avoids b'?' uri
  pub one_line : Avoids 13 (request_line cmd uri params ver)
  pub header_lines : All IsHeaderLine lines

abbrev pub parsed : Bytes → Bytes → Option Bytes → Bytes → List Bytes → Bytes → HttpReqInfo
parsed cmd uri params ver lines body = record {
  is_success = true;
  http_cmd = some cmd;
  http_uri = some uri;
  http_uri_params = params;
  http_ver = some ver;
  http_header = some (header_text lines []);
  http_body = some body;
}

set_uri-uri_text :
    (uri : Bytes) (params : Option Bytes) (info : HttpReqInfo)
    → Avoids b'?' uri
    → info.http_uri_params ≡ none
    → set_uri
        (uri_text uri params)
        (cut_at (strchr b'?' (uri_text uri params)) 0 1 (uri_text uri params))
        info
      ≡ record info { is_success = true; http_uri = some uri; http_uri_params = params }
set_uri-uri_text uri none info h k =
    rw (strchr-none b'?' uri h)
      (ap (λ o. record info { is_success = true; http_uri = some uri; http_uri_params = o }) k)
set_uri-uri_text uri (some params) info h k = rw (cut_char b'?' uri params h) refl

-- A request that is put together from a method, a path, perhaps parameters, a version, lines of
-- a header and a body is taken apart into exactly these: for any bytes of the body, and any parts of
-- which none holds the byte that ends it and no line of the header is empty.
pub parse-request_text :
    (cmd uri : Bytes) (params : Option Bytes) (ver : Bytes) (lines : List Bytes) (body : Bytes)
    → IsRequestText cmd uri params ver lines
    → parse (request_text (request_line cmd uri params ver) lines body)
      ≡ parsed cmd uri params ver lines body
unfolding parse
parse-request_text cmd uri params ver lines body r =
    let target = uri_text uri params in
    let line = request_line cmd uri params ver in
    rw
      (
        find_body-request_text line lines body r.one_line r.header_lines,
        find_header_line line (header_text lines []) r.one_line,
        cut_char 32 cmd (target ++ (32 ∷ ver)) r.cmd_word,
        cut_char 32 target ver r.uri_word,
      )
      (set_uri-uri_text uri params _ r.path_end refl)
