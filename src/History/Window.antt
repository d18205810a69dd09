-- ===== src/History/Window.antt =====
-- internal/ui/history.go: the ring is a window on the accepted samples.
use kubetin.Common.{
  leb, ℕ, zero, suc, ◌+◌, ◌-◌, ◌≤◌, ◌<◌, ◌≡◌, refl, sym, ap, ◌∙◌, true, false, Option, none, some,
  List, [], ◌∷◌, ◌++◌, ltb, length, length-append, length-drop, drop, if◌then◌else◌, map, arith,
  if-case, Bool-cases, inl, inr, append_assoc, append-nil,
}
use kubetin.Common.Int.{ℤ}
use kubetin.History.Ring.{
  NetRing, Sample, empty_ring, append_capped, last_of, is_later, push, push_all,
}

abbrev pub take_last : {A : Type 0} → ℕ → List A → List A
take_last n xs = drop (length xs - n) xs

drop-append :
    {A : Type 0} (k : ℕ) (xs ys : List A) → k ≤ length xs → drop k (xs ++ ys) ≡ drop k xs ++ ys
drop-append zero xs ys h = refl
drop-append (suc k) [] ys h = absurd (omega arith)
drop-append (suc k) (x ∷ xs) ys h = drop-append k xs ys (omega arith)

drop_nil : {A : Type 0} (n : ℕ) → drop {A = A} n [] ≡ []
drop_nil zero = refl
drop_nil (suc n) = refl

drop-drop : {A : Type 0} (j k : ℕ) (xs : List A) → drop j (drop k xs) ≡ drop (k + j) xs
drop-drop j zero xs = ap (λ n. drop n xs) (omega arith)
drop-drop j (suc k) [] = drop_nil j ∙ sym (drop_nil (suc k + j))
drop-drop j (suc k) (x ∷ xs) =
    let e : suc (k + j) ≡ suc k + j = omega arith in drop-drop j k xs ∙ ap (λ n. drop n (x ∷ xs)) e

append_capped-take_last :
    {A : Type 0} (xs : List A) (v : A) (n : ℕ)
    → append_capped (take_last n xs) v n ≡ take_last n (xs ++ v ∷ [])
unfolding append_capped
append_capped-take_last xs v n =
    let k = length xs - n in
    let s = take_last n xs ++ v ∷ [] in
    let long = length-append (take_last n xs) (v ∷ []) in
    let cut =
      ap (drop (length s - n)) (sym (drop-append k xs (v ∷ []) (omega arith)))
      ∙ drop-drop (length s - n) k (xs ++ v ∷ [])
      ∙ ap (λ j. drop j (xs ++ v ∷ []))
          (omega (arith, long, length-drop k xs, length-append xs (v ∷ []))) in
    if-case (λ r. r ≡ take_last n (xs ++ v ∷ [])) (ltb n (length s)) (λ _. cut)
      (λ e. let z : 0 ≡ length s - n = ground arith in ap (λ j. drop j s) z ∙ cut)

-- The samples that a ring accepts: each later than the one accepted before it.
abbrev pub accepted : Option ℕ → List Sample → List Sample
accepted last [] = []
accepted none (p ∷ ps) = p ∷ accepted (some p.at_time) ps
accepted (some t) (p ∷ ps) =
    if leb p.at_time t then accepted (some t) ps else p ∷ accepted (some p.at_time) ps

accepted_cons :
    (last : Option ℕ) (p : Sample) (ps : List Sample)
    → accepted last (p ∷ ps)
      ≡ (if is_later p.at_time last then p ∷ accepted (some p.at_time) ps else accepted last ps)
accepted_cons none p ps = refl
accepted_cons (some t) p ps = ground arith

abbrev pub rxs : List Sample → List ℤ
rxs ps = map (λ p. p.rx) ps

abbrev pub txs : List Sample → List ℤ
txs ps = map (λ p. p.tx) ps

abbrev pub times : List Sample → List ℕ
times ps = map (λ p. p.at_time) ps

-- The ring that shows the last samples of a list.
abbrev pub window : List Sample → NetRing
window ps = record {
  rx = take_last 60 (rxs ps);
  tx = take_last 60 (txs ps);
  at_times = take_last 60 (times ps);
}

map-append : {A B : Type 0} (f : A → B) (xs ys : List A) → map f (xs ++ ys) ≡ map f xs ++ map f ys
map-append f [] ys = refl
map-append f (x ∷ xs) ys = ap (λ zs. f x ∷ zs) (map-append f xs ys)

append_capped-map :
    {A : Type 0} (f : Sample → A) (ps : List Sample) (p : Sample)
    → append_capped (take_last 60 (map f ps)) (f p) 60 ≡ take_last 60 (map f (ps ++ p ∷ []))
append_capped-map f ps p =
    append_capped-take_last (map f ps) (f p) 60
    ∙ ap (λ zs. take_last 60 zs) (sym (map-append f ps (p ∷ [])))

last_of_append : (ts : List ℕ) (t : ℕ) → last_of (ts ++ t ∷ []) ≡ some t
last_of_append [] t = refl
last_of_append (u ∷ []) t = refl
last_of_append (u ∷ v ∷ ts) t = last_of_append (v ∷ ts) t

last_of-drop : (k : ℕ) (ts : List ℕ) → k < length ts → last_of (drop k ts) ≡ last_of ts
last_of-drop zero ts h = refl
last_of-drop (suc k) [] h = absurd (omega arith)
last_of-drop (suc k) (t ∷ []) h = absurd (omega arith)
last_of-drop (suc k) (t ∷ u ∷ ts) h = last_of-drop k (u ∷ ts) (omega arith)

last_of-take_last : (ts : List ℕ) → last_of (take_last 60 ts) ≡ last_of ts
last_of-take_last [] = refl
last_of-take_last (t ∷ ts) = last_of-drop _ (t ∷ ts) (omega arith)

push-window :
    (ps : List Sample) (p : Sample)
    → is_later p.at_time (last_of (times ps)) ≡ true
    → push p (window ps) ≡ window (ps ++ p ∷ [])
unfolding push
push-window ps p h =
    rw
      (
        last_of-take_last (times ps),
        h,
        append_capped-map (λ q. q.rx) ps p,
        append_capped-map (λ q. q.tx) ps p,
        append_capped-map (λ q. q.at_time) ps p,
      )
      refl

push-window_skips :
    (ps : List Sample) (p : Sample)
    → is_later p.at_time (last_of (times ps)) ≡ false
    → push p (window ps) ≡ window ps
unfolding push
push-window_skips ps p h = rw (last_of-take_last (times ps), h) refl

push_all-from :
    (qs ps : List Sample)
    → push_all ps (window qs) ≡ window (qs ++ accepted (last_of (times qs)) ps)
unfolding push_all
push_all-from qs [] = ap window (sym (append-nil qs))
push_all-from qs (p ∷ ps) = elim (Bool-cases (is_later p.at_time (last_of (times qs)))) [
  | inl h ↦
      let last =
        ap last_of (map-append (λ q. q.at_time) qs (p ∷ []))
        ∙ last_of_append (times qs) p.at_time in
      rw (push-window qs p h, accepted_cons (last_of (times qs)) p ps, h)
        (push_all-from (qs ++ p ∷ []) ps
          ∙ ap window (
              ap (λ l. (qs ++ p ∷ []) ++ accepted l ps) last
              ∙ append_assoc qs (p ∷ []) (accepted (some p.at_time) ps)))
  | inr h ↦
      rw (push-window_skips qs p h, accepted_cons (last_of (times qs)) p ps, h)
        (push_all-from qs ps)
]

-- After any samples, the ring holds the rates and times of the last sixty accepted ones, in their
-- order, where a sample is accepted if it is later than the last one accepted.
pub push_all-window : (ps : List Sample) → push_all ps empty_ring ≡ window (accepted none ps)
push_all-window ps = push_all-from [] ps
