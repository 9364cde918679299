-- ===== src/Tokenizer/FastRequest.antt =====
-- src/utils/tokenizer_fast_req.c against generate_res_in_place_hard_code of src/utils/tokenizer.c.
use service_mesh_agent.Base.{
  ℕ, ◌+◌, ◌-◌, ◌≤◌, ◌<◌, ◌^◌, lt→ltb, ◌≡◌, refl, sym, ap, ap₂, ◌∙◌, [], ◌++◌, Bytes, length, take,
  drop, arith, done, ◌>>=◌, Exec, le→leb, append_assoc, length-append, length-drop, length-take,
  codes, take-append-drop, write, slice, drop-drop,
}
use service_mesh_agent.Codec.{int_to_four_char, long_to_8bytes, le_bytes}
use service_mesh_agent.Tokenizer.Serialize.{Target, put}
use service_mesh_agent.Tokenizer.Decode.{target_at}
use service_mesh_agent.Tokenizer.Request.{Appends}
use service_mesh_agent.Tokenizer.Whole.{header_of, length-header_of}
use service_mesh_agent.Tokenizer.Package.{
  method_detail_values_onea, path_dict, header_bytes, generate_res_in_place_hard_code,
}
use service_mesh_agent.Tokenizer.Fast.{
  generate_fast_req_package_header, generate_fast_req_package_in_place, generate_dubbo_package,
}
use service_mesh_agent.Tokenizer.Fixed.{
  fixed_body, fixed_body-Appends, pieces_then, write_third, slice_third, reads, hard_code_lem,
}

module _ (front parameter behind : Bytes) (at : length front ≡ 136)
    (short : 136 + length parameter < 2 ^ 15) where
  -- The package of the fast request, over memory in pieces.
  fast_lem :
      (a b c old rest : Bytes) (req_id : ℕ)
      → length a ≡ 4
      → length b ≡ 2
      → length c ≡ 8
      → length parameter ≡ length old
      → generate_fast_req_package_in_place
          (a ++ (b ++ (c ++ (old ++ rest))))
          (front ++ (parameter ++ behind))
          (136 + length parameter)
          req_id
        ≡ done (record {
          res =
              int_to_four_char (length parameter)
              ++ (b ++ (long_to_8bytes req_id ++ (parameter ++ rest)));
          offset = length parameter + 14;
        })
  unfolding generate_fast_req_package_in_place generate_fast_req_package_header long_to_8bytes
      le_bytes
  fast_lem a b c old rest req_id four two eight same =
      let n : 136 + length parameter - 136 ≡ length parameter = omega arith in
      let value = int_to_four_char (length parameter) in
      let written : write (a ++ (b ++ (c ++ (old ++ rest)))) 14 parameter
          ≡ done (a ++ (b ++ (c ++ (parameter ++ rest)))) =
        ap (λ r. write r 14 parameter) (sym (append_assoc a b (c ++ (old ++ rest))))
        ∙ (write_third (a ++ b) c old parameter rest 14 (omega (arith, length-append a b)) same
            ∙ ap done (append_assoc a b (c ++ (parameter ++ rest)))) in
      let first = write_third [] [] a value (b ++ (c ++ (parameter ++ rest))) 0 refl (sym four) in
      let second =
        write_third value b c (long_to_8bytes req_id) (parameter ++ rest) 6 (omega arith)
          (sym eight) in
      rw
        (
          lt→ltb (136 + length parameter) (2 ^ 15) short,
          le→leb 136 (136 + length parameter) (omega arith),
          ◌>>=◌,
          n,
          reads,
          written,
          first,
          second,
        )
        refl

  -- The request that is made of such a package, over memory in pieces.
  dubbo_lem :
      (a b c x l r : Bytes) (req_id : ℕ) (value : Bytes)
      → length a ≡ 4
      → length b ≡ 8
      → length c ≡ 4
      → length value ≡ 4
      → length l ≡ 2
      → length (fixed_body parameter) ≤ length x
      → generate_dubbo_package
          (a ++ (b ++ (c ++ x)))
          (value ++ (l ++ (long_to_8bytes req_id ++ (parameter ++ r))))
          (length parameter + 14)
        ≡ done (
            target_at
              (header_of (length (fixed_body parameter)) req_id ++ fixed_body parameter)
              (drop (length (fixed_body parameter)) x))
  unfolding generate_dubbo_package Appends long_to_8bytes le_bytes
  dubbo_lem a b c x l r req_id value four eight four' four'' two fits =
      let id = long_to_8bytes req_id in
      let magic = take 4 header_bytes in
      let pkg = value ++ (l ++ (id ++ (parameter ++ r))) in
      let p = magic ++ (id ++ c) in
      let y = drop (length (fixed_body parameter)) x in
      let m : length parameter + 14 - 14 ≡ length parameter = omega arith in
      let ids : slice pkg 6 8 ≡ done id = slice_third value l id (parameter ++ r) 6 (omega arith) in
      let param : slice pkg 14 (length parameter) ≡ done parameter =
        ap (λ q. slice q 14 (length parameter))
          (sym (append_assoc value l (id ++ (parameter ++ r))))
        ∙ slice_third (value ++ l) id parameter r 14 (omega (arith, length-append value l)) in
      let first : write (a ++ (b ++ (c ++ x))) 0 magic ≡ done (magic ++ (b ++ (c ++ x))) =
        write_third [] [] a magic (b ++ (c ++ x)) 0 refl (sym four) in
      let second : write (magic ++ (b ++ (c ++ x))) 4 id ≡ done (magic ++ (id ++ (c ++ x))) =
        write_third [] magic b id (c ++ x) 4 refl (sym eight) in
      let start : record { res = magic ++ (id ++ (c ++ x)); offset = 16 } ≡ target_at p x =
        ap₂ (λ r o. record { res = r; offset = o }) refl (omega (arith, length-append id c)) in
      let size : length (p ++ fixed_body parameter) - 16 ≡ length (fixed_body parameter) =
        omega (arith, length-append p (fixed_body parameter), length-append id c) in
      let v = int_to_four_char (length (fixed_body parameter)) in
      let third : write (magic ++ (id ++ (c ++ (fixed_body parameter ++ y)))) 12 v
          ≡ done (magic ++ (id ++ (v ++ (fixed_body parameter ++ y)))) =
        write_third magic id c v (fixed_body parameter ++ y) 12 refl (sym four') in
      let last : finish (target_at (p ++ fixed_body parameter) y)
          ≡ done (
              target_at (header_of (length (fixed_body parameter)) req_id ++ fixed_body parameter)
                y) =
        ap₂
          (λ r n. write r 12 (int_to_four_char n) >>= λ res.
            done (record { res = res; offset = length (p ++ fixed_body parameter) }))
          (ap (λ z. magic ++ (id ++ z)) (append_assoc c (fixed_body parameter) y)) size
        ∙ (ap
              (λ m. m >>= λ res.
                done (record { res = res; offset = length (p ++ fixed_body parameter) }))
              third
            ∙ ap
                (λ n. done (record {
                  res = magic ++ (id ++ (v ++ (fixed_body parameter ++ y)));
                  offset = n;
                }))
                (omega (
                  arith,
                  length-append p (fixed_body parameter),
                  length-append id c,
                  length-append (header_of (length (fixed_body parameter)) req_id)
                      (fixed_body parameter),
                  length-header_of (length (fixed_body parameter)) req_id,
                ))) in
      rw (first, ◌>>=◌, ids, second, le→leb 14 (length parameter + 14) (omega arith), m, param)
        (ap
            (λ t. put t method_detail_values_onea >>= λ t. put t (codes "\"") >>= λ t.
              put t parameter >>= λ t. put t (codes "\"") >>= λ t. put t path_dict >>= finish)
            start
          ∙ (pieces_then (target_at p x) method_detail_values_onea (codes "\"") parameter
                (codes "\"") path_dict finish
              ∙ (ap (λ m. m >>= finish) (fixed_body-Appends parameter p x fits) ∙ last)))
    where
      finish : Target → Exec Target
      finish t = write t.res 12 (int_to_four_char (t.offset - 16)) >>= λ res.
          done (record { res = res; offset = t.offset })

  -- When the parameter stands behind 136 bytes of the body, the length of both together is a short that
  -- is not negative, and the packages have room for what is written, the request that is made of the
  -- fast package between the agents is the one that the hard-coded builder makes of the body: the
  -- header with the id and the length, then the fixed body with the parameter in it.
  pub generate_dubbo_package-fast :
      (pkg res : Bytes) (req_id : ℕ)
      → 14 + length parameter ≤ length pkg
      → 16 + length (fixed_body parameter) ≤ length res
      → (fast : Target) × (generate_fast_req_package_in_place pkg
            (front ++ (parameter ++ behind))
            (136 + length parameter)
            req_id
          ≡ done fast)
        × (generate_dubbo_package res fast.res fast.offset
            ≡ generate_res_in_place_hard_code res
                (front ++ (parameter ++ behind))
                (136 + length parameter)
                req_id)
        × (generate_dubbo_package res fast.res fast.offset
            ≡ done (
                target_at
                  (header_of (length (fixed_body parameter)) req_id ++ fixed_body parameter)
                  (drop (length (fixed_body parameter)) (drop 16 res))))
  generate_dubbo_package-fast pkg res req_id room fits =
      let n = length parameter in
      let a = take 4 pkg in
      let b = take 2 (drop 4 pkg) in
      let w = drop 2 (drop 4 pkg) in
      let c = take 8 w in
      let old = take n (drop 8 w) in
      let r = drop n (drop 8 w) in
      let size_w : length w ≡ length pkg - 6 =
        omega (arith, length-drop 2 (drop 4 pkg), length-drop 4 pkg) in
      let pieces : a ++ (b ++ (c ++ (old ++ r))) ≡ pkg =
        ap (λ z. a ++ (b ++ (c ++ z))) (take-append-drop n (drop 8 w))
        ∙ (ap (λ z. a ++ (b ++ z)) (take-append-drop 8 w)
            ∙ (ap (λ z. a ++ z) (take-append-drop 2 (drop 4 pkg)) ∙ take-append-drop 4 pkg)) in
      let made =
        fast_lem a b c old r req_id (omega (arith, length-take 4 pkg))
          (omega (arith, length-take 2 (drop 4 pkg), length-drop 4 pkg))
          (omega (arith, length-take 8 w, size_w))
          (omega (arith, length-take n (drop 8 w), length-drop 8 w, size_w)) in
      let d = drop 4 res in
      let e = drop 8 d in
      let size_e : length e ≡ length res - 12 = omega (arith, length-drop 8 d, length-drop 4 res) in
      let pieces' : take 4 res ++ (take 8 d ++ (take 4 e ++ drop 4 e)) ≡ res =
        ap (λ z. take 4 res ++ (take 8 d ++ z)) (take-append-drop 4 e)
        ∙ (ap (λ z. take 4 res ++ z) (take-append-drop 8 d) ∙ take-append-drop 4 res) in
      let behind_header : drop 4 e ≡ drop 16 res = drop-drop 4 8 d ∙ drop-drop 12 4 res in
      let fast : Target = record {
        res = int_to_four_char n ++ (b ++ (long_to_8bytes req_id ++ (parameter ++ r)));
        offset = n + 14;
      } in
      let whole =
        ap (λ q. generate_dubbo_package q fast.res fast.offset) (sym pieces')
        ∙ (dubbo_lem (take 4 res) (take 8 d) (take 4 e) (drop 4 e) b r req_id (int_to_four_char n)
              (omega (arith, length-take 4 res)) (omega (arith, length-take 8 d, length-drop 4 res))
              (omega (arith, length-take 4 e, size_e)) refl
              (omega (arith, length-take 2 (drop 4 pkg), length-drop 4 pkg))
              (omega (arith, length-drop 4 e, size_e))
            ∙ ap
                (λ x. done (
                  target_at
                    (header_of (length (fixed_body parameter)) req_id ++ fixed_body parameter)
                    (drop (length (fixed_body parameter)) x)))
                behind_header) in
      (
        fast,
        ap
              (λ q.
                generate_fast_req_package_in_place q (front ++ (parameter ++ behind)) (136 + n)
                  req_id)
              (sym pieces)
            ∙ made,
        whole ∙ sym (hard_code_lem front parameter behind at short res req_id fits),
        whole,
      )
