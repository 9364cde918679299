-- ===== src/Tokenizer/Fixed.antt =====
-- src/utils/tokenizer.c and tokenizer_fast_req.c, the requests that are made of the parameter alone.
use service_mesh_agent.Base.{
  ℕ, ◌+◌, ◌-◌, ◌≤◌, ◌<◌, ◌^◌, lt→ltb, ◌≡◌, sym, ap, ap₂, ◌∙◌, ◌++◌, Bytes, length, take, drop,
  arith, done, ◌>>=◌, Exec, >>=-assoc, >>=_congr, le→leb, append_assoc, length-append, length-drop,
  length-take, codes, take-append-drop, write, slice, write_over, slice_of_append,
}
use service_mesh_agent.Tokenizer.Serialize.{Target, put}
use service_mesh_agent.Tokenizer.Decode.{target_at}
use service_mesh_agent.Tokenizer.Request.{Appends, Appends-put, Appends-then}
use service_mesh_agent.Tokenizer.Whole.{header_of, length-header_of, generate_header_lem}
use service_mesh_agent.Tokenizer.Package.{
  method_detail_values_onea, path_dict, generate_body_hard_code, generate_res_in_place_hard_code,
}

-- The body of such a request.
unfoldable pub fixed_body : Bytes → Bytes
fixed_body parameter =
    method_detail_values_onea ++ (codes "\"" ++ (parameter ++ (codes "\"" ++ path_dict)))

pub fixed_body-Appends :
    (parameter : Bytes)
    → Appends
        (λ t. put t method_detail_values_onea >>= λ t. put t (codes "\"") >>= λ t.
          put t parameter >>= λ t. put t (codes "\"") >>= λ t. put t path_dict)
        (fixed_body parameter)
unfolding fixed_body
fixed_body-Appends parameter = Appends-then _ _ _ _ (Appends-put method_detail_values_onea) (
    Appends-then _ _ _ _ (Appends-put (codes "\"")) (
      Appends-then _ _ _ _ (Appends-put parameter)
        (Appends-then _ _ _ _ (Appends-put (codes "\"")) (Appends-put path_dict))))

-- What follows the five pieces.
pub pieces_then :
    (t : Target) (a b c d e : Bytes) (k : Target → Exec Target)
    → (put t a >>= λ t. put t b >>= λ t. put t c >>= λ t. put t d >>= λ t. put t e >>= k)
      ≡ ((put t a >>= λ t. put t b >>= λ t. put t c >>= λ t. put t d >>= λ t. put t e) >>= k)
pieces_then t a b c d e k = sym (
    >>=-assoc (put t a) (λ t. put t b >>= λ t. put t c >>= λ t. put t d >>= λ t. put t e) k
    ∙ >>=_congr (put t a) (λ t.
      >>=-assoc (put t b) (λ t. put t c >>= λ t. put t d >>= λ t. put t e) k
      ∙ >>=_congr (put t b) (λ t.
        >>=-assoc (put t c) (λ t. put t d >>= λ t. put t e) k
        ∙ >>=_congr (put t c) (λ t. >>=-assoc (put t d) (λ t. put t e) k))))

-- Writing over bytes behind two pieces, and reading them.
pub write_third :
    (a b old bs rest : Bytes) (off : ℕ)
    → length a + length b ≡ off
    → length bs ≡ length old
    → write (a ++ (b ++ (old ++ rest))) off bs ≡ done (a ++ (b ++ (bs ++ rest)))
write_third a b old bs rest off at same =
    ap₂ (λ r n. write r n bs) (sym (append_assoc a b (old ++ rest)))
      (omega (arith, at, length-append a b))
    ∙ (write_over (a ++ b) old bs rest same ∙ ap done (append_assoc a b (bs ++ rest)))

pub slice_third :
    (a b bs rest : Bytes) (off : ℕ)
    → length a + length b ≡ off
    → slice (a ++ (b ++ (bs ++ rest))) off (length bs) ≡ done bs
slice_third a b bs rest off at =
    ap₂ (λ r n. slice r n (length bs)) (sym (append_assoc a b (bs ++ rest)))
      (omega (arith, at, length-append a b))
    ∙ slice_of_append (a ++ b) bs rest

module _ (front parameter behind : Bytes) (at : length front ≡ 136)
    (short : 136 + length parameter < 2 ^ 15) where
  pub reads : slice (front ++ (parameter ++ behind)) 136 (length parameter) ≡ done parameter
  reads =
      ap (λ n. slice (front ++ (parameter ++ behind)) n (length parameter)) (sym at)
      ∙ slice_of_append front parameter behind

  pub hard_code_lem :
      (res : Bytes) (req_id : ℕ)
      → 16 + length (fixed_body parameter) ≤ length res
      → generate_res_in_place_hard_code res
          (front ++ (parameter ++ behind))
          (136 + length parameter)
          req_id
        ≡ done (
            target_at
              (header_of (length (fixed_body parameter)) req_id ++ fixed_body parameter)
              (drop (length (fixed_body parameter)) (drop 16 res)))
  unfolding generate_res_in_place_hard_code generate_body_hard_code Appends
  hard_code_lem res req_id fits =
      let six : length (take 16 res) ≡ 16 = omega (arith, length-take 16 res) in
      let start : record { res = res; offset = 16 } ≡ target_at (take 16 res) (drop 16 res) =
        ap₂ (λ r o. record { res = r; offset = o }) (sym (take-append-drop 16 res)) (sym six) in
      let tail = drop (length (fixed_body parameter)) (drop 16 res) in
      let n : 136 + length parameter - 136 ≡ length parameter = omega arith in
      let size : length (take 16 res ++ fixed_body parameter) - 16 ≡ length (fixed_body parameter) =
        omega (arith, length-append (take 16 res) (fixed_body parameter)) in
      rw
        (
          lt→ltb (136 + length parameter) (2 ^ 15) short,
          le→leb 136 (136 + length parameter) (omega arith),
          ◌>>=◌,
          n,
          reads,
          start,
          fixed_body-Appends parameter (take 16 res) (drop 16 res)
              (omega (arith, length-drop 16 res)),
          size,
          append_assoc (take 16 res) (fixed_body parameter) tail,
          generate_header_lem (take 16 res) (fixed_body parameter ++ tail)
              (length (fixed_body parameter)) req_id six,
        )
        (ap₂ (λ r o. done (record { res = r; offset = o }))
          (sym (
            append_assoc (header_of (length (fixed_body parameter)) req_id) (fixed_body parameter)
              tail))
          (omega (
            arith,
            six,
            length-append (take 16 res) (fixed_body parameter),
            length-append (header_of (length (fixed_body parameter)) req_id) (fixed_body parameter),
            length-header_of (length (fixed_body parameter)) req_id,
          )))
