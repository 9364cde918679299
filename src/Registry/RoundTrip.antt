-- ===== src/Registry/RoundTrip.antt =====
-- A key that src/provider_agent.c announces, read by str_to_server_uri of src/utils/utils.c.
use service_mesh_agent.Base.{
  ℕ, zero, suc, ◌+◌, ◌-◌, ◌*◌, ◌/◌, ◌%◌, ◌^◌, ◌≤◌, ◌<◌, ◌≡◌, refl, sym, ap, subst, ◌∙◌, ◌⊎◌, inl,
  inr, [], ◌∷◌, ◌++◌, Bytes, done, ◌>>=◌, must, some, length, arith, append_assoc, append-nil,
  codes, lt→ltb, le→not-ltb, ne→not-==, drop, le→leb,
}
use native.Mathlib.Nat.{pow-suc}
use native.Mathlib.Decide.{dec_lt}
use service_mesh_agent.Base.Words.{u32}
use service_mesh_agent.Tokenizer.Offsets.{Lacks, lacks, lacks-Lacks}
use service_mesh_agent.Text.{tokens, tokens_from, cons_token, digits, atoi, decimal}
use service_mesh_agent.Provider.Register.{registered_key}
use service_mesh_agent.Registry.Uri.{str_to_server_uri, last_token, scale_of}

tokens_cut :
    (delim : ℕ) (t u rest : Bytes)
    → Lacks delim u
    → tokens_from delim t (u ++ delim ∷ rest) ≡ cons_token (t ++ u) (tokens delim rest)
unfolding tokens_from tokens
tokens_cut delim t [] rest h = rw (append-nil t) (ground arith)
tokens_cut delim t (b ∷ u) rest h = rw (ne→not-== b delim h.0) (
    tokens_cut delim (t ++ b ∷ []) u rest h.1
    ∙ ap (λ v. cons_token v (tokens_from delim [] rest)) (append_assoc t (b ∷ []) u))

tokens_end :
    (delim : ℕ) (t u : Bytes) → Lacks delim u → tokens_from delim t u ≡ cons_token (t ++ u) []
unfolding tokens_from
tokens_end delim t [] h = rw (append-nil t) refl
tokens_end delim t (b ∷ u) h =
    rw (ne→not-== b delim h.0)
      (tokens_end delim (t ++ b ∷ []) u h.1 ∙ ap (λ v. cons_token v []) (append_assoc t (b ∷ []) u))

-- Digits only.
abbrev AreDigits : Bytes → Type 0
AreDigits [] = Unit
AreDigits (c ∷ cs) = (b'0' ≤ c) × (c ≤ b'9') × AreDigits cs

AreDigits-append :
    (xs : Bytes) (c : ℕ) → AreDigits xs → b'0' ≤ c → c ≤ b'9' → AreDigits (xs ++ c ∷ [])
AreDigits-append [] c h lo hi = (lo, hi, tt)
AreDigits-append (x ∷ xs) c h lo hi = (h.0, h.1, AreDigits-append xs c h.2 lo hi)

decimal-AreDigits : (fuel n : ℕ) → AreDigits (decimal fuel n)
unfolding decimal
decimal-AreDigits zero n = tt
decimal-AreDigits (suc fuel) n = elim (dec_lt n 10) [
  | yes h ↦ rw (lt→ltb n 10 h) (omega arith, omega arith, tt)
  | no h ↦ rw (le→not-ltb n 10 (omega arith)) (
      AreDigits-append (decimal fuel (n / 10)) (n % 10 + b'0') (decimal-AreDigits fuel (n / 10))
        (omega arith) (omega arith))
]

digits_append :
    (acc : ℕ) (xs : Bytes) (c : ℕ)
    → AreDigits xs
    → b'0' ≤ c
    → c ≤ b'9'
    → digits acc (xs ++ c ∷ []) ≡ u32 (digits acc xs * 10 + (c - b'0'))
unfolding digits
digits_append acc [] c h lo hi = rw (le→leb b'0' c lo, le→leb c b'9' hi) refl
digits_append acc (x ∷ xs) c h lo hi =
    rw (le→leb b'0' x h.0, le→leb x b'9' h.1)
      (digits_append (u32 (acc * 10 + (x - b'0'))) xs c h.2 lo hi)

one_digit : (n : ℕ) → n < 10 → digits 0 ((n + b'0') ∷ []) ≡ n
unfolding digits
one_digit n h =
    rw (le→leb b'0' (n + b'0') (omega arith), le→leb (n + b'0') b'9' (omega arith)) (omega arith)

-- What %d prints, atoi reads.
digits-decimal : (fuel n : ℕ) → n < 10 ^ suc fuel → n < 2 ^ 31 → digits 0 (decimal (suc fuel) n) ≡ n
unfolding decimal
digits-decimal zero n lt small = rw (lt→ltb n 10 (omega arith)) (one_digit n (omega arith))
digits-decimal (suc fuel) n lt small = elim (dec_lt n 10) [
  | yes h ↦ rw (lt→ltb n 10 h) (one_digit n h)
  | no h ↦
      let fewer : n / 10 < 10 ^ suc fuel = omega (arith, pow-suc 10 (suc fuel)) in
      rw (le→not-ltb n 10 (omega arith)) (
        digits_append 0 (decimal (suc fuel) (n / 10)) (n % 10 + b'0')
          (decimal-AreDigits (suc fuel) (n / 10)) (omega arith) (omega arith)
        ∙ (ap (λ v. u32 (v * 10 + (n % 10 + b'0' - b'0')))
              (digits-decimal fuel (n / 10) fewer (omega arith))
            ∙ omega arith))
]

decimal-ne-nil : (fuel n : ℕ) → (c : ℕ) × (cs : Bytes) × (decimal (suc fuel) n ≡ c ∷ cs)
unfolding decimal
decimal-ne-nil fuel n = elim (dec_lt n 10) [
  | yes h ↦ (n + b'0', [], rw (lt→ltb n 10 h) refl)
  | no h ↦
      let (c, cs, e) = first (decimal fuel (n / 10)) (n % 10 + b'0') in
      (c, cs, rw (le→not-ltb n 10 (omega arith)) e)
]
  where
    first : (xs : Bytes) (d : ℕ) → (c : ℕ) × (cs : Bytes) × (xs ++ d ∷ [] ≡ c ∷ cs)
    first [] d = (d, [], refl)
    first (x ∷ xs) d = (x, xs ++ d ∷ [], refl)

atoi-decimal : (n : ℕ) → n < 2 ^ 31 → atoi (decimal 10 n) ≡ n
unfolding atoi
atoi-decimal n small =
    let (c, cs, e) = decimal-ne-nil 9 n in
    let d = subst AreDigits e (decimal-AreDigits 10 n) in
    ap atoi e
    ∙ rw
        (
          ne→not-== c b' ' (λ q. omega (arith, q, d.0)),
          ne→not-== c b'-' (λ q. omega (arith, q, d.0)),
        )
        (ap (digits 0) (sym e) ∙ digits-decimal 9 n (omega arith) small)

digits_lack :
    (delim : ℕ) (xs : Bytes) → AreDigits xs → (delim < b'0') ⊎ (b'9' < delim) → Lacks delim xs
digits_lack delim [] h out = tt
digits_lack delim (x ∷ xs) h out = (
  λ e. elim out [ inl l ↦ omega (arith, e, l, h.0) | inr r ↦ omega (arith, e, r, h.1) ],
  digits_lack delim xs h.2 out,
)

Lacks-append : (c : ℕ) (u w : Bytes) → Lacks c u → Lacks c w → Lacks c (u ++ w)
Lacks-append c [] w h k = k
Lacks-append c (b ∷ u) w h k = (h.0, Lacks-append c u w h.1 k)

-- The part of the key behind the last slash.
abbrev uri : ℕ → Bytes → ℕ → Bytes
uri scale addr port = (scale + b'0') ∷ b':' ∷ (addr ++ b':' ∷ decimal 10 port)

tokens-uri :
    (scale port a : ℕ) (rest : Bytes)
    → scale < 3
    → Lacks b':' (a ∷ rest)
    → tokens b':' (uri scale (a ∷ rest) port)
      ≡ ((scale + b'0') ∷ []) ∷ (a ∷ rest) ∷ decimal 10 port ∷ []
unfolding tokens
tokens-uri scale port a rest lt ha =
    let (c, cs, e) = decimal-ne-nil 9 port in
    tokens_cut b':' [] ((scale + b'0') ∷ []) ((a ∷ rest) ++ b':' ∷ decimal 10 port)
      ((λ q. omega (arith, q), tt))
    ∙ ap (λ ts. ((scale + b'0') ∷ []) ∷ ts)
        (tokens_cut b':' [] (a ∷ rest) (decimal 10 port) ha
          ∙ ap (λ ts. (a ∷ rest) ∷ ts)
              (tokens_end b':' [] (decimal 10 port) (
                  digits_lack b':' (decimal 10 port) (decimal-AreDigits 10 port)
                    (inr (omega arith)))
                ∙ (ap (λ t. cons_token t []) e ∙ ap (λ t. t ∷ []) (sym e))))

key_tokens :
    (scale port : ℕ) (addr : Bytes)
    → scale < 3
    → Lacks b'/' addr
    → last_token (tokens b'/' (drop 1 (registered_key (scale + b'0') addr port)))
      ≡ some (uri scale addr port)
unfolding registered_key last_token tokens lacks
key_tokens scale port addr lt h =
    let u = uri scale addr port in
    let lack : Lacks b'/' u = (
      λ q. omega (arith, q),
      (
        (λ q. omega (arith, q)),
        Lacks-append b'/' addr (b':' ∷ decimal 10 port) h (
          λ q. omega (arith, q),
          digits_lack b'/' (decimal 10 port) (decimal-AreDigits 10 port) (inl (omega arith)),
        ),
      ),
    ) in
    let first = codes "dubbomesh" in
    let service = codes "com.alibaba.dubbo.performance.demo.provider.IHelloService" in
    ap last_token (
      tokens_cut b'/' [] first (service ++ b'/' ∷ u) (lacks-Lacks b'/' first refl)
      ∙ ap (λ ts. first ∷ ts)
          (tokens_cut b'/' [] service u (lacks-Lacks b'/' service refl)
            ∙ ap (λ ts. service ∷ ts) (tokens_end b'/' [] u lack)))

scale_back : (scale : ℕ) → scale < 3 → scale_of (scale + b'0') ≡ done scale
unfolding scale_of
scale_back zero lt = refl
scale_back (suc zero) lt = refl
scale_back (suc (suc zero)) lt = refl
scale_back (suc (suc (suc n))) lt = absurd (omega arith)

-- A key that a provider registers, of scale 0 to 2, with an address that is not empty, is shorter than
-- 256 bytes and has no slash and no colon, is read back as this scale, address and port.
pub str_to_server_uri-registered_key :
    (scale port a : ℕ) (rest : Bytes)
    → scale < 3
    → Lacks b'/' (a ∷ rest)
    → Lacks b':' (a ∷ rest)
    → length (a ∷ rest) < 256
    → port < 2 ^ 31
    → str_to_server_uri (registered_key (scale + b'0') (a ∷ rest) port)
      ≡ done (record { scale = scale; addr = a ∷ rest; port = port })
unfolding str_to_server_uri
str_to_server_uri-registered_key scale port a rest lt slash colon short small =
    rw
      (
        key_tokens scale port (a ∷ rest) lt slash,
        must,
        ◌>>=◌,
        tokens-uri scale port a rest lt colon,
        scale_back scale lt,
        lt→ltb (length (a ∷ rest)) 256 short,
        atoi-decimal port small,
      )
      refl
