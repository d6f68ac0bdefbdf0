-- ===== src/Program/Counts.antt =====
-- Counting STOPs and requests in what is sent to a process.
use rp_maksym_zaveriukha.Base.{
  ℕ, ◌+◌, ◌<◌, ◌≤◌, ◌≡◌, ◌==◌, List, [], ◌∷◌, ◌++◌, arith, refl, if◌then◌else◌,
}
use rp_maksym_zaveriukha.Db.Receiver.{Verdict}
use rp_maksym_zaveriukha.Program.{
  Merge, both_empty, from_first, from_second, verdict, weighed, stops, requests, as_stop,
  as_request,
}

-- The requests after the first STOP.
abbrev pub late : List (List ℕ) → ℕ
late [] = 0
late (m ∷ ms) = let rest = late ms in if as_stop (verdict m) == 0 then rest else requests ms

pub weighed-append :
    (w : Verdict → ℕ) (xs ys : List (List ℕ)) → weighed w (xs ++ ys) ≡ weighed w xs + weighed w ys
weighed-append w [] ys = omega arith
weighed-append w (x ∷ xs) ys = omega (arith, weighed-append w xs ys)

pub weighed-merged :
    (w : Verdict → ℕ) {xs ys zs : List (List ℕ)}
    → Merge xs ys zs
    → weighed w zs ≡ weighed w xs + weighed w ys
weighed-merged w both_empty = omega arith
weighed-merged w (from_first x m) = omega (arith, weighed-merged w m)
weighed-merged w (from_second y m) = omega (arith, weighed-merged w m)

-- No request comes after a STOP.
pub late-append : (xs ys : List (List ℕ)) → 0 < stops xs → requests ys ≤ late (xs ++ ys)
late-append [] ys h = absurd (omega (arith, h))
late-append (x ∷ xs) ys h = ground (arith, late-append xs ys, weighed-append as_request xs ys)

pub late-append-unstopped : (xs ys : List (List ℕ)) → stops xs ≡ 0 → late (xs ++ ys) ≡ late ys
late-append-unstopped [] ys h = refl
late-append-unstopped (x ∷ xs) ys h = ground (arith, late-append-unstopped xs ys)

pub late-of-begun : (xs ys : List (List ℕ)) → late xs ≤ late (xs ++ ys)
late-of-begun [] ys = omega arith
late-of-begun (x ∷ xs) ys = ground (arith, late-of-begun xs ys, weighed-append as_request xs ys)

-- Messages that are neither do not matter.
pub late-merged :
    {xs ys zs : List (List ℕ)} → Merge xs ys zs → stops ys ≡ 0 → requests ys ≡ 0 → late zs ≡ late xs
late-merged both_empty s r = refl
late-merged (from_first {xs = xs} {ys = ys} {zs = zs} x m) s r =
    ground (arith, late-merged m s r, weighed-merged as_request m)
late-merged (from_second {ys = ys} y m) s r = ground (arith, late-merged m)
