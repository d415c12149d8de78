-- ===== src/Pop3/Tally.antt =====
-- The messages that are shown and those that are marked deleted.
use seclab_suite_protocol_si.Base.{
  All, List, [], ap, append_assoc, arith, get_elem?, length, length-append, refl, replicate, set,
  some, subst, suc, true, zero, ℕ, ◌++◌, ◌+◌, ◌<◌, ◌==◌, ◌∙◌, ◌∷◌, ◌≡◌, ◌≢◌, ◌≤◌,
}
use seclab_suite_protocol_si.Mail.{MailMessage}
use seclab_suite_protocol_si.Pop3.{is_deleted, visible_from}

abbrev pub sum : List ℕ → ℕ
sum [] = 0
sum (n ∷ ns) = n + sum ns

get_elem?-append :
    {A : Type 0} (before : List A) (x : A) (rest : List A)
    → get_elem? (before ++ (x ∷ rest)) (length before) ≡ some x
get_elem?-append [] x rest = refl
get_elem?-append (y ∷ before) x rest = get_elem?-append before x rest

is_deleted-append :
    (before : List ℕ) (mark : ℕ) (rest : List ℕ)
    → is_deleted (before ++ (mark ∷ rest)) (length before) ≡ (mark == 1)
unfolding is_deleted
is_deleted-append before mark rest = rw (get_elem?-append before mark rest) refl

-- Behind the marks of the messages in front, the shown messages and the marks make up all messages.
pub length-visible_from :
    (messages : List MailMessage) (before rest : List ℕ)
    → length rest ≡ length messages
    → All (λ mark. mark ≤ 1) rest
    → length (visible_from (length before) messages (before ++ rest)) + sum rest ≡ length messages
unfolding visible_from
length-visible_from [] before [] h marks = refl
length-visible_from [] before (mark ∷ rest) h marks = absurd (omega arith)
length-visible_from (message ∷ messages) before [] h marks = absurd (omega arith)
length-visible_from (message ∷ messages) before (mark ∷ rest) h (m, marks) =
    let next = before ++ (mark ∷ []) in
    let later = length-visible_from messages next rest (omega arith) marks in
    let here = is_deleted-append before mark rest in
    let moved : length (visible_from (suc (length before)) messages (next ++ rest)) + sum rest
        ≡ length messages =
      subst (λ n. length (visible_from n messages (next ++ rest)) + sum rest ≡ length messages)
        (length-append before (mark ∷ []) ∙ omega arith) later in
    let whole : length (visible_from (suc (length before)) messages (before ++ (mark ∷ rest)))
          + sum rest
        ≡ length messages =
      subst
        (λ l. length (visible_from (suc (length before)) messages l) + sum rest ≡ length messages)
        (append_assoc before (mark ∷ []) rest) moved in
    rw (here, is_deleted) ground (arith, whole)

pub sum-replicate : (n : ℕ) → sum (replicate n 0) ≡ 0
sum-replicate zero = refl
sum-replicate (suc n) = omega (arith, sum-replicate n)

pub All-replicate : (n : ℕ) → All (λ mark. mark ≤ 1) (replicate n 0)
All-replicate zero = tt
All-replicate (suc n) = (omega arith, All-replicate n)

pub All-set :
    (marks : List ℕ) (i : ℕ) → All (λ mark. mark ≤ 1) marks → All (λ mark. mark ≤ 1) (set marks i 1)
All-set [] i h = tt
All-set (mark ∷ marks) zero (h, hs) = (omega arith, hs)
All-set (mark ∷ marks) (suc i) (h, hs) = (h, All-set marks i hs)

get_elem?-set : (marks : List ℕ) (i : ℕ) → i < length marks → get_elem? (set marks i 1) i ≡ some 1
get_elem?-set [] i h = absurd (omega arith)
get_elem?-set (mark ∷ marks) zero h = refl
get_elem?-set (mark ∷ marks) (suc i) h = get_elem?-set marks i (omega arith)

get_elem?-set_ne :
    (marks : List ℕ) (i j : ℕ) → i ≢ j → get_elem? (set marks i 1) j ≡ get_elem? marks j
get_elem?-set_ne [] i j h = refl
get_elem?-set_ne (mark ∷ marks) zero zero h = absurd (h refl)
get_elem?-set_ne (mark ∷ marks) zero (suc j) h = refl
get_elem?-set_ne (mark ∷ marks) (suc i) zero h = refl
get_elem?-set_ne (mark ∷ marks) (suc i) (suc j) h = get_elem?-set_ne marks i j (λ e. h (ap suc e))

-- Marking a message hides it, and leaves every other as it was.
pub is_deleted-set :
    (marks : List ℕ) (i j : ℕ)
    → i < length marks
    → (is_deleted (set marks i 1) i ≡ true)
      × (i ≢ j → is_deleted (set marks i 1) j ≡ is_deleted marks j)
unfolding is_deleted
is_deleted-set marks i j h =
    (rw (get_elem?-set marks i h) refl, λ ne. rw (get_elem?-set_ne marks i j ne) refl)
