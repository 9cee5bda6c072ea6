-- ===== src/Tests/Ratelimit.antt =====
-- A sorted set filled by plain functions, and a witness for internal/ratelimit.
use redline.Base.{
  ℕ, suc, ◌≤◌, max, String, ◌≡◌, refl, ap, ◌∙◌, Bool, true, List, [], ◌∷◌, arith, str_eq, eq_iff,
  leb, if◌then◌else◌, Bool-cases, length, keep_if, ℤ, pos, ltb_ℤ, Call, served, refused, lost,
}
use redline.Redis.{Scores}
use redline.Ratelimit.Window.{in_count, last_time, history, ascending}
use redline.Ratelimit.Window

abbrev inserted : ℕ → List ℕ → List ℕ
inserted s [] = s ∷ []
inserted s (t ∷ ts) = let rest = inserted s ts in if leb s t then s ∷ t ∷ ts else t ∷ rest

count-inserted :
    (s : ℕ) (p : ℕ → Bool) (ts : List ℕ)
    → length (keep_if p (inserted s ts))
      ≡ (if p s then suc (length (keep_if p ts)) else length (keep_if p ts))
count-inserted s p [] = ground (arith, Bool-cases (p s))
count-inserted s p (t ∷ ts) =
    ground (arith, Bool-cases (p s), Bool-cases (p t), count-inserted s p ts)

abbrev kept : ℤ → List ℕ → List ℕ
kept max ts = keep_if (λ s. ltb_ℤ max (pos s)) ts

pub self : (k : String) → str_eq k k ≡ true
self k = ground (arith, eq_iff k k)

abbrev score_table : Scores
score_table = record {
  Db = String → List ℕ;
  scores = λ d k. d k;
  zremrange = λ d k max j. if str_eq k j then kept max (d j) else d j;
  zadd_new = λ d k s j. if str_eq k j then inserted s (d j) else d j;
  scores-zremrange = λ d k max. ap (λ b. if b then kept max (d k) else d k) (self k);
  count-zadd = λ d k s p.
      ap (λ b. length (keep_if p (if b then inserted s (d k) else d k))) (self k)
      ∙ count-inserted s p (d k);
}

abbrev no_scores : String → List ℕ
no_scores k = []

abbrev burst : List (Call × ℕ)
burst = (served, 5) ∷ (served, 6) ∷ (lost, 7) ∷ (refused, 8) ∷ (served, 20) ∷ []

window-bounded_example :
    in_count 10 (last_time 0 burst) (history score_table "u" 10 (pos 2) no_scores [] burst) ≤ 2
window-bounded_example = Window.window-bounded score_table "u" 10 (pos 2) burst no_scores refl refl
