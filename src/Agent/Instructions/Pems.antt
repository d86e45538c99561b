-- ===== src/Agent/Instructions/Pems.antt =====
-- What the configured PEMs and files of PEMs are read as.
use xmidt_agent.Base.{
  ◌≡◌, inl, inr, true, Option, some, List, [], ◌∷◌, Text, is_empty, trim_space, arith, Bool-cases,
  Option-cases, subst, Each,
}
use xmidt_agent.Fs.{Result, ok, Result-cases}
use xmidt_agent.Setup.{Applied, applied, applied-inj}
use xmidt_agent.Agent.Results.{bind_inversion}
use xmidt_agent.Agent.Instructions.{normal_pems, file_pems}

applied_list : (a b : List Text) → Path (Applied (List Text)) (applied a) (applied b) → a ≡ b
applied_list a b p = applied-inj a b p

module _ {B : Type 0} (decode : Text → Option B × Text) (encode : B → Option Text)
    (read : Text → Result Text) where
  -- The item is one block, which is encoded anew, with nothing but white space after it.
  abbrev pub IsNormal : Text → Text → Type 0
  IsNormal item pem =
      (b : B) × ((decode item).0 ≡ some b)
      × (is_empty (trim_space (decode item).1) ≡ true)
      × (encode b ≡ some pem)

  pub normal_pems_lem :
      (items pems : List Text)
      → normal_pems decode encode read items ≡ applied pems
      → Each IsNormal items pems
  unfolding normal_pems
  normal_pems_lem [] pems p = subst (Each IsNormal []) (applied_list [] pems p) tt
  normal_pems_lem (item ∷ items) pems p = elim (Option-cases (decode item).0) [
    | inl bad ↦ absurd (ground (arith, bad, p))
    | inr (b, block) ↦ elim (Bool-cases (is_empty (trim_space (decode item).1))) [
      | inr more ↦ absurd (ground (arith, block, more, p))
      | inl one ↦ elim (Option-cases (encode b)) [
        | inl bad ↦ absurd (ground (arith, block, one, bad, p))
        | inr (buf, q) ↦
            let (later, r, s) =
              bind_inversion (normal_pems decode encode read items) (λ l. applied (buf ∷ l)) pems
                (rw (normal_pems, block, one, q) at p) in
            subst (Each IsNormal (item ∷ items)) (applied_list (buf ∷ later) pems s)
              ((b, block, one, q), normal_pems_lem items later r)
      ]
    ]
  ]

  abbrev pub IsRead : Text → Text → Type 0
  IsRead file contents = read file ≡ ok contents

  pub file_pems_lem :
      (files pems : List Text)
      → file_pems decode encode read files ≡ applied pems
      → Each IsRead files pems
  unfolding file_pems
  file_pems_lem [] pems p = subst (Each IsRead []) (applied_list [] pems p) tt
  file_pems_lem (file ∷ files) pems p = elim (Result-cases (read file)) [
    | inl (e, q) ↦ absurd (ground (arith, q, p))
    | inr (contents, q) ↦
        let (later, r, s) =
          bind_inversion (file_pems decode encode read files) (λ l. applied (contents ∷ l)) pems
            (rw (file_pems, q) at p) in
        subst (Each IsRead (file ∷ files)) (applied_list (contents ∷ later) pems s)
          (q, file_pems_lem files later r)
  ]
