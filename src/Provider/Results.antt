-- ===== src/Provider/Results.antt =====
-- src/provider_agent.c: a whole connection from the dubbo server becomes HTTP responses to the consumer
-- agent.
use service_mesh_agent.Base.{
  ℕ, ◌+◌, ◌-◌, ◌^◌, ◌≤◌, ◌<◌, ◌≡◌, refl, sym, ap, ap₂, ◌∙◌, ◌*◌, ◌/◌, [], ◌∷◌, ◌++◌, ltb,
  if◌then◌else◌, Bytes, done, ◌>>=◌, length, take, drop, arith, slice, write, append_assoc,
  length-append, le→leb, lt→ltb, le→not-ltb, lt→not-leb, slice_of_append, write_over, write_behind,
  codes, take-append-drop, length-take, length-drop,
}
use native.Mathlib.Decide.{dec_lt}
use service_mesh_agent.Base.Words.{u8, u32, int_to_size}
use service_mesh_agent.Codec.{int_to_four_char, long_to_8bytes, le_bytes, int_to_string}
use service_mesh_agent.Provider.Relay.{package_size, response_template, build_response}

-- An answer of the dubbo server: three bytes, the status, the id, the length, and a body of two bytes,
-- the hash and a line feed.
pub record Result : Type 0 where
  pub magic₀ : ℕ
  pub magic₁ : ℕ
  pub flags : ℕ
  pub status : ℕ
  pub id : ℕ
  pub lead₀ : ℕ
  pub lead₁ : ℕ
  pub hash : Bytes
  pub last : ℕ

abbrev pub result_bytes : Result → Bytes
result_bytes m =
    m.magic₀
    ∷ m.magic₁
    ∷ m.flags
    ∷ m.status
    ∷ (long_to_8bytes m.id
        ++ (int_to_four_char (length m.hash + 3) ++ (m.lead₀ ∷ m.lead₁ ∷ (m.hash ++ m.last ∷ []))))

-- The number in the two blanks of the template.
abbrev pub digits_of : ℕ → Bytes
digits_of n =
    if ltb n 10 then (n + b'0') ∷ b' ' ∷ [] else (n / 10 + b'0') ∷ (n - n / 10 * 10 + b'0') ∷ []

abbrev pub http_bytes : Bytes → Bytes
http_bytes hash =
    codes "HTTP/1.1 200 OK\r\nContent-Length: "
    ++ (digits_of (length hash) ++ (codes "\r\n\r\n" ++ hash))

-- What the consumer agent is sent: length, id, response.
abbrev pub response_bytes : Result → Bytes
response_bytes m =
    int_to_four_char (length (http_bytes m.hash)) ++ (long_to_8bytes m.id ++ http_bytes m.hash)

one_digit : (n : ℕ) → n < 10 → int_to_string n ≡ (n + b'0') ∷ []
unfolding int_to_string
one_digit n lt =
    let plain : u8 (n + b'0') ≡ n + b'0' = omega arith in
    rw (lt→not-leb (2 ^ 31) n (omega arith), lt→ltb n 10 lt, plain) refl

two_digits :
    (n : ℕ) → 10 ≤ n → n < 100 → int_to_string n ≡ (n / 10 + b'0') ∷ (n - n / 10 * 10 + b'0') ∷ []
unfolding int_to_string
two_digits n ge lt =
    let high : u8 (n / 10 + b'0') ≡ n / 10 + b'0' = omega arith in
    let low : u8 (n - n / 10 * 10 + b'0') ≡ n - n / 10 * 10 + b'0' = omega arith in
    rw (lt→not-leb (2 ^ 31) n (omega arith), le→not-ltb n 10 ge, high, low) refl

length-digits_of : (n : ℕ) → length (digits_of n) ≡ 2
length-digits_of n = ground arith

-- The digits are written over the blanks.
writes_digits :
    (p rest : Bytes) (n : ℕ)
    → n < 100
    → write (p ++ (b' ' ∷ b' ' ∷ rest)) (length p) (int_to_string n)
      ≡ done (p ++ (digits_of n ++ rest))
writes_digits p rest n lt = elim (dec_lt n 10) [
  | yes h ↦
      rw (one_digit n h, lt→ltb n 10 h)
        (write_behind p ((n + b'0') ∷ []) (b' ' ∷ b' ' ∷ rest) (omega arith))
  | no h ↦
      rw (two_digits n (omega arith) lt, le→not-ltb n 10 (omega arith))
        (write_behind p ((n / 10 + b'0') ∷ (n - n / 10 * 10 + b'0') ∷ []) (b' ' ∷ b' ' ∷ rest)
          (omega arith))
]

-- The writes of build_response, one after the other.
response_in_place :
    (f₄ f₈ g hash four eight : Bytes)
    → length f₄ ≡ 4
    → length f₈ ≡ 8
    → length four ≡ 4
    → length eight ≡ 8
    → length hash < 100
    → 39 + length hash ≤ length g
    → (b₁ b₂ b₃ b₄ tail : Bytes) × (write ((f₄ ++ f₈) ++ g) 12 response_template ≡ done b₁)
      × (write b₁ 45 (int_to_string (length hash)) ≡ done b₂)
      × (write b₂ 51 hash ≡ done b₃)
      × (write b₃ 0 four ≡ done b₄)
      × (write b₄ 4 eight ≡ done (four ++ (eight ++ (http_bytes hash ++ tail))))
response_in_place f₄ f₈ g hash four eight e₄ e₈ l₄ l₈ short room =
    let p = f₄ ++ f₈ in
    let d = digits_of (length hash) in
    let head = codes "HTTP/1.1 200 OK\r\nContent-Length: " in
    let stop = codes "\r\n\r\n" in
    let g₁ = drop 39 g in
    let g₂ = drop (length hash) g₁ in
    let x = head ++ (d ++ (stop ++ (hash ++ g₂))) in
    let twelve : length p ≡ 12 = omega (arith, length-append f₄ f₈) in
    let at₄₅ : length (p ++ head) ≡ 45 = omega (arith, length-append p head) in
    let mid = head ++ (d ++ stop) in
    let at₅₁ : length (p ++ mid) ≡ 51 =
      omega (arith, length-append p mid, length-append d stop, length-digits_of (length hash)) in
    let b₁ = p ++ (response_template ++ g₁) in
    let b₂ = (p ++ head) ++ (d ++ (stop ++ g₁)) in
    let b₃ = f₄ ++ (f₈ ++ x) in
    (
      b₁,
      b₂,
      b₃,
      four ++ (f₈ ++ x),
      g₂,
      ap (λ n. write (p ++ g) n response_template) (sym twelve)
          ∙ write_behind p response_template g (omega arith),
      ap₂ (λ b n. write b n (int_to_string (length hash)))
            (sym (append_assoc p head (b' ' ∷ b' ' ∷ (stop ++ g₁)))) (sym at₄₅)
          ∙ writes_digits (p ++ head) (stop ++ g₁) (length hash) short,
      ap₂ (λ b n. write b n hash)
            (append_assoc p head (d ++ (stop ++ g₁))
              ∙ (ap (λ y. p ++ (head ++ y)) (sym (append_assoc d stop g₁))
                  ∙ sym (append_assoc p mid g₁)))
            (sym at₅₁)
          ∙ (write_behind (p ++ mid) hash g₁ (omega (arith, length-drop 39 g))
              ∙ ap done (
                  append_assoc p mid (hash ++ g₂)
                  ∙ (ap (λ y. p ++ (head ++ y)) (append_assoc d stop (hash ++ g₂))
                      ∙ append_assoc f₄ f₈ x))),
      write_over [] f₄ four (f₈ ++ x) (omega arith),
      ap (λ n. write (four ++ (f₈ ++ x)) n eight) (sym l₄)
          ∙ (write_over four f₈ eight x (omega arith)
              ∙ ap (λ y. done (four ++ (eight ++ (head ++ y))))
                  (sym (append_assoc d (stop ++ hash) g₂))),
    )

pub length-http_bytes : (hash : Bytes) → length (http_bytes hash) ≡ 39 + length hash
length-http_bytes hash = omega (
  arith,
  length-append (digits_of (length hash)) (codes "\r\n\r\n" ++ hash),
  length-digits_of (length hash),
)

abbrev pub IsResult : Result → Type 0
IsResult m = (m.id < 2 ^ 64) × (length m.hash < 100)

pub length-result_bytes : (m : Result) → length (result_bytes m) ≡ length m.hash + 19
unfolding long_to_8bytes le_bytes
length-result_bytes m = omega (arith, length-append m.hash (m.last ∷ []))

module _ (fresh : Bytes) (size : length fresh ≡ package_size) where
  pub builds :
      (m : Result) (rest : Bytes)
      → IsResult m
      → build_response fresh (result_bytes m ++ rest) (length m.hash + 3) ≡ done (response_bytes m)
  unfolding build_response long_to_8bytes le_bytes
  builds m rest ok =
      let h = length m.hash in
      let f₄ = take 4 fresh in
      let f₈ = take 8 (drop 4 fresh) in
      let g = drop 8 (drop 4 fresh) in
      let whole : fresh ≡ (f₄ ++ f₈) ++ g = sym (
        append_assoc f₄ f₈ g
        ∙ (ap (λ y. f₄ ++ y) (take-append-drop 8 (drop 4 fresh)) ∙ take-append-drop 4 fresh)) in
      let four = int_to_four_char (39 + h) in
      let (b₁, b₂, b₃, b₄, tail, w₁, w₂, w₃, w₄, w₅) =
        response_in_place f₄ f₈ g m.hash four (long_to_8bytes m.id)
          (omega (arith, size, length-take 4 fresh))
          (omega (arith, size, length-drop 4 fresh, length-take 8 (drop 4 fresh))) refl refl ok.1
          (omega (arith, size, ok.1, length-drop 4 fresh, length-drop 8 (drop 4 fresh))) in
      let back : u32 (h + 3 + (2 ^ 32 - 3)) ≡ h = omega (arith, ok.1) in
      let as_size : int_to_size h ≡ h = rw (lt→ltb h (2 ^ 31) (omega (arith, ok.1))) refl in
      let raw = result_bytes m ++ rest in
      let lead : Bytes =
        m.magic₀
        ∷ m.magic₁
        ∷ m.flags
        ∷ m.status
        ∷ (long_to_8bytes m.id ++ (int_to_four_char (h + 3) ++ (m.lead₀ ∷ m.lead₁ ∷ []))) in
      let read : slice raw 18 h ≡ done m.hash =
        ap (λ y. slice (lead ++ y) 18 h) (append_assoc m.hash (m.last ∷ []) rest)
        ∙ slice_of_append lead m.hash (m.last ∷ rest) in
      let id : slice raw 4 8 ≡ done (long_to_8bytes m.id) =
        rw (le→leb 12 (length raw) (omega arith)) refl in
      let http = length-http_bytes m.hash in
      let first : write fresh 12 response_template ≡ done b₁ =
        ap (λ b. write b 12 response_template) whole ∙ w₁ in
      let last : slice (four ++ (long_to_8bytes m.id ++ (http_bytes m.hash ++ tail))) 0
            (39 + h + 12)
          ≡ done (response_bytes m) =
        ap
          (λ n.
            slice (int_to_four_char n ++ (long_to_8bytes m.id ++ (http_bytes m.hash ++ tail))) 0
              (39 + h + 12))
          (sym http)
        ∙ (ap (λ k. slice (response_bytes m ++ tail) 0 k) {x = 39 + h + 12}
              {y = length (response_bytes m)} (omega (arith, http))
            ∙ slice_of_append [] (response_bytes m) tail) in
      rw (back, first, ◌>>=◌, w₂, as_size, read, w₃, w₄, id, w₅) last
