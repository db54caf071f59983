-- ===== src/Heap/Ensures.antt =====
-- Total correctness of a heap operation: it returns, and the result and the heap satisfy `P`.
use ulmix_i.Heap.{Kheap, Outcome, done}

abbrev pub Ensures : {A : Type 0} → (A → Kheap → Type 0) → Outcome A → Type 0
Ensures P (done a k) = P a k
Ensures P _ = ⊥

pub Ensures-all :
    {A : Type 0} {I : Type 0} (P : A → Kheap → Type 0) (Q : I → A → Kheap → Type 0) (o : Outcome A)
    → Ensures P o
    → ((i : I) → Ensures (Q i) o)
    → Ensures (λ a k. P a k × ((i : I) → Q i a k)) o
Ensures-all P Q (done a k) p q = (p, q)
Ensures-all P Q _ p q = absurd p

pub Ensures-mono :
    {A : Type 0} (P Q : A → Kheap → Type 0) (o : Outcome A)
    → Ensures P o
    → ((a : A) (k : Kheap) → P a k → Q a k)
    → Ensures Q o
Ensures-mono P Q (done a k) p f = f a k p
Ensures-mono P Q _ p f = p
