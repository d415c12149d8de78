-- ===== src/Captures/RemoveFile.antt =====
-- What `remove_file` leaves of a directory.
use seclab_suite_protocol_si.Base.{
  Bool-cases, IsIn, List, Option, [], arith, inl, inr, length, none, refl, some, subst, suc, sym, ℕ,
  ◌+◌, ◌∷◌, ◌≡◌, ◌⊎◌,
}
use seclab_suite_protocol_si.Base.Bits.{Bytes}
use seclab_suite_protocol_si.Base.Text.{Text, text_eq, text_eq_sound}
use seclab_suite_protocol_si.Captures.{Node, Removal, failed, gone, remove_file, remove_first}

abbrev pub count_of : Removal → ℕ
count_of gone = 1
count_of _ = 0

remove_first-keeps :
    (P : Removal × List Node → Type 0) (node : Node) (nodes : List Node)
    → ((error : Text) → node.refusal ≡ some error → P (failed error, node ∷ nodes))
    → (node.refusal ≡ none → P (gone, nodes))
    → P (remove_first node.refusal node nodes)
remove_first-keeps P node nodes h k = split node.refusal h k
  where
    split :
        (o : Option Text)
        → ((error : Text) → o ≡ some error → P (failed error, node ∷ nodes))
        → (o ≡ none → P (gone, nodes))
        → P (remove_first o node nodes)
    split none h k = k refl
    split (some error) h k = h error refl

-- Every node is left, but for one with the name that may be removed.
pub remove_file-IsIn :
    (name : Bytes) (nodes : List Node) (x : Node)
    → IsIn x nodes
    → IsIn x (remove_file name nodes).1 ⊎ ((x.name ≡ name) × (x.refusal ≡ none))
unfolding remove_file
remove_file-IsIn name [] x member = absurd member
remove_file-IsIn name (node ∷ nodes) x member = elim (Bool-cases (text_eq node.name name)) [
  | inl named ↦ rw named (
      remove_first-keeps
        (λ (r : Removal × List Node). IsIn x r.1 ⊎ ((x.name ≡ name) × (x.refusal ≡ none))) node
        nodes (λ error refuses. inl member)
        (λ free. elim member [
          | inl same ↦ inr (
            subst (λ (n : Node). n.name ≡ name) (sym same) (text_eq_sound node.name name named),
            subst (λ (n : Node). n.refusal ≡ none) (sym same) free,
          )
          | inr behind ↦ inl behind
        ]))
  | inr other ↦ rw other (elim member [
    | inl same ↦ inl (inl same)
    | inr behind ↦ elim (remove_file-IsIn name nodes x behind) [
      | inl left ↦ inl (inr left)
      | inr removed ↦ inr removed
    ]
  ])
]

-- Nothing is added.
pub remove_file-Within :
    (name : Bytes) (nodes : List Node) (x : Node) → IsIn x (remove_file name nodes).1 → IsIn x nodes
unfolding remove_file
remove_file-Within name [] x = λ member. member
remove_file-Within name (node ∷ nodes) x = elim (Bool-cases (text_eq node.name name)) [
  | inl named ↦ rw named (
      remove_first-keeps (λ (r : Removal × List Node). IsIn x r.1 → IsIn x (node ∷ nodes)) node
        nodes (λ error refuses member. member) (λ free member. inr member))
  | inr other ↦ rw other (λ member. elim member [
    | inl same ↦ inl same
    | inr behind ↦ inr (remove_file-Within name nodes x behind)
  ])
]

pub length-remove_file :
    (name : Bytes) (nodes : List Node)
    → length nodes ≡ length (remove_file name nodes).1 + count_of (remove_file name nodes).0
unfolding remove_file
length-remove_file name [] = refl
length-remove_file name (node ∷ nodes) = elim (Bool-cases (text_eq node.name name)) [
  | inl named ↦ rw named (
      remove_first-keeps
        (λ (r : Removal × List Node). suc (length nodes) ≡ length r.1 + count_of r.0) node nodes
        (λ error refuses. omega arith) (λ free. omega arith))
  | inr other ↦ rw other (omega (arith, length-remove_file name nodes))
]
