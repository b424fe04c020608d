-- ===== src/Recv/Ends.antt =====
-- Where the text of a request ends in its buffer (src/http_server_accept_and_handle_conn.c).
use esp32_wifi_manager.Common.{
  ℕ, zero, suc, ◌≤◌, ◌<◌, ◌≡◌, refl, ap, ◌⊎◌, inl, inr, Option, none, some, [], ◌∷◌, ◌++◌, Bytes,
  length, take, get_elem?, arith,
}
use esp32_wifi_manager.Recv.{Ctx}

-- The text of `a` bytes in a buffer, behind `n` bytes that have come: it is not longer than they are,
-- its bytes have been written, and the cell behind it is the terminator, unless data behind the
-- content has been discarded, so that the text is shorter than what has come.
abbrev pub Ends : ℕ → Option Bytes → ℕ → Type 0
Ends n none a = a ≤ n
Ends n (some b) a = (a ≤ n) × (a ≤ length b) × ((get_elem? b a ≡ some 0) ⊎ (a < n))

pub Ends-mono : (n m : ℕ) (o : Option Bytes) (a : ℕ) → n ≤ m → Ends n o a → Ends m o a
Ends-mono n m none a le h = omega (arith, h)
Ends-mono n m (some b) a le (h, inside, inl ended) = (omega arith, inside, inl ended)
Ends-mono n m (some b) a le (h, inside, inr cut) = (omega arith, inside, inr (omega arith))

pub Ends-le : (n : ℕ) (o : Option Bytes) (a : ℕ) → Ends n o a → a ≤ n
Ends-le n none a h = h
Ends-le n (some b) a h = h.0

pub length-take : (n : ℕ) (s : Bytes) → n ≤ length s → length (take n s) ≡ n
length-take zero s h = refl
length-take (suc n) [] h = absurd (omega arith)
length-take (suc n) (x ∷ s) h = ap suc (length-take n s (omega arith))

pub le-length-take : (a n : ℕ) (s : Bytes) → a ≤ length s → a ≤ n → a ≤ length (take n s)
le-length-take a zero s h le = omega arith
le-length-take a (suc n) [] h le = omega arith
le-length-take zero (suc n) (x ∷ s) h le = omega arith
le-length-take (suc a) (suc n) (x ∷ s) h le =
    omega (arith, le-length-take a n s (omega arith) (omega arith))

pub get_elem?-take : (a n : ℕ) (s : Bytes) → a < n → get_elem? (take n s) a ≡ get_elem? s a
get_elem?-take a zero s h = absurd (omega arith)
get_elem?-take a (suc n) [] h = refl
get_elem?-take zero (suc n) (x ∷ s) h = refl
get_elem?-take (suc a) (suc n) (x ∷ s) h = get_elem?-take a n s (omega arith)

pub get_elem?-end : (t : Bytes) → get_elem? (t ++ 0 ∷ []) (length t) ≡ some 0
get_elem?-end [] = refl
get_elem?-end (x ∷ t) = get_elem?-end t

-- A context whose text ends there.
abbrev pub EndsIn : ℕ → Ctx → Type 0
EndsIn n c = Ends n c.req_buf c.accum_len
