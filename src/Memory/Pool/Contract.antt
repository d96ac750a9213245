-- ===== src/Memory/Pool/Contract.antt =====
-- The memory pool keeps the contract of a pool.
use vshortlink.Prelude.{
  ℕ, ◌+◌, ◌-◌, ◌≡◌, refl, ap, ◌∙◌, ◌&&◌, List, [], ◌∷◌, ◌++◌, Text, same, same_iff, same_refl,
  occurrences, ltb, ◌==◌, ==_iff, if◌then◌else◌, length, ok, arith, inl, inr,
}
use vshortlink.Link.{Time}
use vshortlink.Interfaces.Contract.{PoolLaws, Pulled}
use vshortlink.Memory.Pool.{MemoryShortCodePool, memory_pool, pull, add, remove, clear, erase_code}
use vshortlink.Memory.Pool.Queue.{
  queue, head_or_empty, rest_of, pull-queue, queue-add, queue-remove, queue-clear, queue-lock,
  queue-unlock,
}

occurrences_last :
    (x k : Text) (cs : List Text)
    → occurrences x (cs ++ k ∷ []) ≡ occurrences x cs + (if same k x then 1 else 0)
occurrences_last x k [] = omega arith
occurrences_last x k (c ∷ cs) = omega (arith, occurrences_last x k cs)

occurrences-erase_code :
    (x k : Text) (cs : List Text)
    → occurrences x (erase_code k cs)
      ≡ (if same k x then occurrences x cs - 1 else occurrences x cs)
unfolding erase_code
occurrences-erase_code x k [] = ground arith
occurrences-erase_code x k (c ∷ cs) =
    ground (arith, occurrences-erase_code x k cs, same_iff c k, same_iff c x, same_iff k x)

remove_ok : (n : ℕ) (k : Text) (p : MemoryShortCodePool) → (remove n k p).0 ≡ ok tt
unfolding remove
remove_ok n k p = ground arith

abbrev pub amount_of : MemoryShortCodePool → ℕ → Text → ℕ
amount_of p n x = occurrences x (queue p n)

pull-Pulled :
    (p : MemoryShortCodePool) (n : ℕ) (cs : List Text)
    → queue p n ≡ cs
    → Pulled amount_of n p (pull n p)
pull-Pulled p n [] e = inl (
  (pull-queue p n n).0 ∙ ap (λ q. ok (head_or_empty q, ltb 10 (length (rest_of q)))) e,
  λ m x. (
    ap (occurrences x) e,
    ap (occurrences x) ((pull-queue p n m).1) ∙ ground (arith, ==_iff n m, ap rest_of e, e),
  ),
)
pull-Pulled p n (c ∷ cs) e = inr (
  c,
  ltb 10 (length cs),
  (pull-queue p n n).0 ∙ ap (λ q. ok (head_or_empty q, ltb 10 (length (rest_of q)))) e,
  λ m x. ground (
    arith,
    ==_iff n m,
    ap (occurrences x) e,
    ap rest_of e,
    ap (occurrences x) ((pull-queue p n m).1),
  ),
)

add_amount_of :
    (p : MemoryShortCodePool) (now : Time) (n m : ℕ) (k x : Text)
    → amount_of (add now n k p).1 m x ≡ amount_of p m x + (if (n == m) && same k x then 1 else 0)
add_amount_of p now n m k x =
    ap (occurrences x) (queue-add p n m now k)
    ∙ ground (arith, ==_iff n m, occurrences_last x k (queue p n))

-- The memory pool keeps the contract of a pool.
pub memory_pool_refines :
    (contract : PoolLaws memory_pool) × (contract.IsFine ≡ (λ p. Unit {0}))
    × (contract.amount ≡ amount_of)
memory_pool_refines = (
  record {
    IsFine = λ p. Unit {0};
    amount = amount_of;
    pull_amount = λ p n fine. (tt, pull-Pulled p n (queue p n) refl);
    add_amount = λ p now n k fine. (
      unfold add in refl,
      tt,
      ground (arith, add_amount_of p now n n k k, same_refl k, ==_iff n n),
      ground (arith, add_amount_of p now n n k k),
      λ m x other. add_amount_of p now n m k x ∙ ground (arith, other),
    );
    remove_amount = λ p n k fine. (
      remove_ok n k p,
      tt,
      λ m x.
          ap (occurrences x) (queue-remove p n m k)
          ∙ ground (arith, ==_iff n m, occurrences-erase_code x k (queue p n)),
    );
    clear_amount = λ p n fine.
        (unfold clear in refl, tt, λ m x. ap (occurrences x) (queue-clear p n m) ∙ ground arith);
    lock_amount =
        λ p now n expire fine. (tt, λ m x. ap (occurrences x) (queue-lock p n m now expire));
    unlock_amount = λ p n fine. (tt, λ m x. ap (occurrences x) (queue-unlock p n m));
  },
  refl,
  refl,
)
