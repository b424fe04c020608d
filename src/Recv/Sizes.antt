-- ===== src/Recv/Sizes.antt =====
-- What the steps on the size of a request's buffer keep.
use mathlib.Core.Option
use esp32_wifi_manager.Common.{
  ℕ, zero, suc, ◌+◌, ◌≤◌, ◌≡◌, refl, Bool, true, false, Option, none, some, [], ◌∷◌, ◌++◌, Bytes,
  length, take, is_some, ltb, ◌==◌, if◌then◌else◌, Bool-cases, inl, inr, arith, ◌∙◌,
}
use esp32_wifi_manager.Http.{Field, starts_with}
use esp32_wifi_manager.Recv.{
  Ctx, RecvEnv, crlf_crlf, max_content_size, c_str, body_at, cells, alloc_first, alloc_more, alloc,
  cut_excess, resize, handle_request_content_len, finish_if_full, finish_content, on_content_len,
  handle_completed,
}

-- What holds between two calls: the text fits in the buffer with its terminator, and the buffer
-- is at most 4096 bytes until the header is complete, and 11434 bytes more behind it.
pub record IsBounded (c : Ctx) : Type 0 where
  pub fits : c.accum_len ≤ c.req_buf_size
  pub written : length (cells c.req_buf) ≤ suc c.req_buf_size
  pub size_le : c.req_buf_size ≤ 4096 + (if c.is_header_completed then 11434 else 0)
  pub header_le : c.header_len ≤ 4096

-- Without a buffer nothing has been received.
pub record IsFresh (c : Ctx) : Type 0 where
  pub empty : (if is_some c.req_buf then 0 else c.accum_len) ≡ 0
  pub no_header : (if is_some c.req_buf then false else c.is_header_completed) ≡ false

pub length-take-le : (n : ℕ) (s : Bytes) → length (take n s) ≤ n
length-take-le zero s = omega arith
length-take-le (suc n) [] = omega arith
length-take-le (suc n) (x ∷ s) = omega (arith, length-take-le n s)

pub length-c_str : (s : Bytes) → length (c_str (s ++ 0 ∷ [])) ≤ length s
unfolding c_str
length-c_str [] = omega arith
length-c_str (c ∷ s) = ground (arith, length-c_str s)

starts_with-length : (p s : Bytes) → starts_with p s ≡ true → length p ≤ length s
unfolding starts_with
starts_with-length [] s h = omega arith
starts_with-length (x ∷ p) [] h = cc
starts_with-length (x ∷ p) (y ∷ s) h = ground (arith, starts_with-length p s)

suc_le :
    (s : Bytes) (n : ℕ) (o : Option ℕ)
    → Option.map suc o ≡ some n
    → ((m : ℕ) → o ≡ some m → m ≤ length s)
    → n ≤ suc (length s)
suc_le s n none h k = cc
suc_le s n (some m) h k = ground (arith, k m refl)

pub body_at-le : (s : Bytes) (n : ℕ) → body_at s ≡ some n → n ≤ length s
unfolding body_at starts_with
body_at-le [] n h = cc
body_at-le (c ∷ s) n h = elim (Bool-cases (starts_with crlf_crlf (c ∷ s))) [
  | inl e ↦ ground (arith, starts_with-length crlf_crlf (c ∷ s) e, h, e)
  | inr e ↦ suc_le s n (body_at s) (rw e at h) (body_at-le s)
]

module _ (env : RecvEnv) where
  alloc_first-IsBounded :
      (len : ℕ) (c : Ctx)
      → c.req_buf ≡ none
      → IsBounded c
      → IsFresh c
      → IsBounded (alloc_first env len c).0
  unfolding alloc_first
  alloc_first-IsBounded len c e b f =
      let empty : c.accum_len ≡ 0 = ground (arith, e) in
      let header : c.is_header_completed ≡ false = ground (arith, e) in ground arith

  alloc_more-IsBounded : (len : ℕ) (c : Ctx) → IsBounded c → IsBounded (alloc_more env len c).0
  unfolding alloc_more
  alloc_more-IsBounded len c b = ground arith

  pub alloc-IsBounded :
      (o : Option Bytes) (len : ℕ) (c : Ctx)
      → c.req_buf ≡ o
      → IsBounded c
      → IsFresh c
      → IsBounded (alloc env o len c).0
  alloc-IsBounded none len c e b f = alloc_first-IsBounded len c e b f
  alloc-IsBounded (some _) len c e b f = alloc_more-IsBounded len c b

  resize-IsBounded :
      (c : Ctx)
      → IsBounded c
      → c.is_header_completed ≡ true
      → c.accum_len ≤ c.expected_len
      → c.expected_len ≤ 15530
      → IsBounded (resize env c).0
  unfolding resize
  resize-IsBounded c b h a e = ground (arith, length-take-le (suc c.expected_len) (cells c.req_buf))

  cut_excess-IsBounded :
      (c : Ctx)
      → IsBounded c
      → IsBounded (cut_excess c)
        × ((cut_excess c).accum_len ≤ c.expected_len)
        × ((cut_excess c).expected_len ≡ c.expected_len)
        × ((cut_excess c).is_header_completed ≡ c.is_header_completed)
  unfolding cut_excess
  cut_excess-IsBounded c b = ground arith

  handle_request_content_len-IsBounded :
      (n : ℕ) (c : Ctx)
      → IsBounded c
      → c.is_header_completed ≡ true
      → IsBounded (handle_request_content_len env n c).0
  unfolding handle_request_content_len
  handle_request_content_len-IsBounded n c b h = elim (Bool-cases (ltb max_content_size n)) [
    | inl e ↦ rw e (record {
      fits = b.fits;
      written = b.written;
      size_le = b.size_le;
      header_le = b.header_le;
    })
    | inr e ↦
        let c' = record c { content_len = n; expected_len = c.header_len + n } in
        let small : n ≤ 11434 = ground arith in
        let b' : IsBounded c' = record {
          fits = b.fits;
          written = b.written;
          size_le = b.size_le;
          header_le = b.header_le;
        } in
        let (k, a, x, y) = cut_excess-IsBounded c' b' in
        rw e (
          resize-IsBounded (cut_excess c') k (y ∙ h) (omega (arith, a, x))
            (omega (arith, x, b.header_le)))
  ]

  finish_if_full-IsBounded : (c : Ctx) → IsBounded c → IsBounded (finish_if_full c).0
  unfolding finish_if_full
  finish_if_full-IsBounded c b = ground arith

  finish_content-IsBounded : (r : Ctx × Bool) → IsBounded r.0 → IsBounded (finish_content r).0
  finish_content-IsBounded (c, true) b = finish_if_full-IsBounded c b
  finish_content-IsBounded (c, false) b = b

  on_content_len-IsBounded :
      (o : Option Field) (c : Ctx)
      → IsBounded c
      → c.is_header_completed ≡ true
      → IsBounded (on_content_len env o c).0
  on_content_len-IsBounded none c b h = record {
    fits = b.fits;
    written = b.written;
    size_le = b.size_le;
    header_le = b.header_le;
  }
  on_content_len-IsBounded (some f) c b h =
      finish_content-IsBounded _ (handle_request_content_len-IsBounded (env.strtoul f.ptr) c b h)

  pub handle_completed-IsBounded :
      (c : Ctx) → IsBounded c → c.is_header_completed ≡ true → IsBounded (handle_completed env c).0
  unfolding handle_completed
  handle_completed-IsBounded c b h = elim (Bool-cases (c.content_len == 0)) [
    | inl e ↦ rw e (on_content_len-IsBounded _ c b h)
    | inr e ↦ rw e (finish_if_full-IsBounded c b)
  ]
