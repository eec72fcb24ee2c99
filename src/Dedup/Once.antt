-- ===== src/Dedup/Once.antt =====
-- What the deduplication makes of a sequence of messages.
use microservice_wallet_serv.Base.{
  ℕ, ◌+◌, ◌<◌, ◌≤◌, ◌≡◌, refl, sym, ap, Bool, true, false, not, ◌||◌, inl, inr, List, [], ◌∷◌, ◌++◌,
  ◌∙◌, All, arith, Bool-cases, if◌then◌else◌,
}
use microservice_wallet_serv.Base.Text.{Text, same_text}
use microservice_wallet_serv.Dedup.{Cache, is_tracked, week, is_duplicate}

-- whether an id is among those seen
unfoldable pub is_seen : Text → List Text → Bool
is_seen id [] = false
is_seen id (x ∷ xs) = same_text id x || is_seen id xs

same_text-append : (p s t : Text) → same_text (p ++ s) (p ++ t) ≡ same_text s t
unfolding same_text
same_text-append [] s t = refl
same_text-append (c ∷ p) s t = ground (arith, same_text-append p s t)

-- the time of a message lies in the week from `start` on
abbrev pub IsWithin : {D : Type 0} → (D → ℕ) → ℕ → D → Type 0
IsWithin at start d = (start ≤ at d) × (at d < start + week)

unfoldable pub process_all : {D S : Type 0} → (D → S → S) → List D → S → S
process_all process [] s = s
process_all process (d ∷ ds) s = process_all process ds (process d s)

module _ {D : Type 0} (id_of : D → Text) where
  -- the messages to process: those without an id, and the first of each id
  unfoldable pub first_of_each : List Text → List D → List D
  unfolding is_seen is_tracked
  first_of_each seen [] = []
  first_of_each seen (d ∷ ds) =
      let later = first_of_each seen ds in
      let fresh = first_of_each (id_of d ∷ seen) ds in
      if not (is_tracked (id_of d))
      then d ∷ later
      else if is_seen (id_of d) seen
      then later
      else d ∷ fresh

  first_of_each-nil : (seen : List Text) → first_of_each seen [] ≡ []
  unfolding first_of_each
  first_of_each-nil seen = refl

  first_of_each_untracked :
      (seen : List Text) (d : D) (ds : List D)
      → is_tracked (id_of d) ≡ false
      → first_of_each seen (d ∷ ds) ≡ d ∷ first_of_each seen ds
  unfolding first_of_each
  first_of_each_untracked seen d ds h = ground arith

  first_of_each_seen :
      (seen : List Text) (d : D) (ds : List D)
      → is_tracked (id_of d) ≡ true
      → is_seen (id_of d) seen ≡ true
      → first_of_each seen (d ∷ ds) ≡ first_of_each seen ds
  unfolding first_of_each
  first_of_each_seen seen d ds h k = ground arith

  first_of_each_new :
      (seen : List Text) (d : D) (ds : List D)
      → is_tracked (id_of d) ≡ true
      → is_seen (id_of d) seen ≡ false
      → first_of_each seen (d ∷ ds) ≡ d ∷ first_of_each (id_of d ∷ seen) ds
  unfolding first_of_each
  first_of_each_new seen d ds h k = ground arith

module _ {K : Type 0} (cache : Cache K) (prefix : Text) (now : ℕ) (id : Text) (c : K) where
  pub is_duplicate_untracked :
      is_tracked id ≡ false → is_duplicate cache prefix now id c ≡ (false, c)
  unfolding is_duplicate
  is_duplicate_untracked h = ground arith

  pub is_duplicate_seen :
      is_tracked id ≡ true
      → cache.holds now (prefix ++ id) c ≡ true
      → is_duplicate cache prefix now id c ≡ (true, c)
  unfolding is_duplicate
  is_duplicate_seen h k = ground arith

  pub is_duplicate_new :
      is_tracked id ≡ true
      → cache.holds now (prefix ++ id) c ≡ false
      → is_duplicate cache prefix now id c ≡ (false, cache.set now (prefix ++ id) week c)
  unfolding is_duplicate
  is_duplicate_new h k = ground arith

module _ {K D S : Type 0} (cache : Cache K) (prefix : Text) (at : D → ℕ) (id_of : D → Text)
    (process : D → S → S) where
  -- one message: a duplicate is not processed
  unfoldable pub guarded : D → K × S → K × S
  guarded d (c, s) =
      let (duplicate, c') = is_duplicate cache prefix (at d) (id_of d) c in
      (c', if duplicate then s else process d s)

  guarded_as :
      (d : D) (c : K) (s : S) {b : Bool} {c' : K}
      → is_duplicate cache prefix (at d) (id_of d) c ≡ (b, c')
      → guarded d (c, s) ≡ (c', if b then s else process d s)
  unfolding guarded
  guarded_as d c s h = ap (λ r. (r.1, if r.0 then s else process d s)) h

  unfoldable pub guarded_all : List D → K × S → K × S
  unfolding guarded
  guarded_all [] p = p
  guarded_all (d ∷ ds) p = guarded_all ds (guarded d p)

  -- the cache holds a message's key exactly if its id has been seen
  abbrev pub Agrees : List Text → K → D → Type 0
  Agrees seen c d = cache.holds (at d) (prefix ++ id_of d) c ≡ is_seen (id_of d) seen

  Agrees-set :
      (start : ℕ) (seen : List Text) (c : K) (d : D) (ds : List D)
      → IsWithin at start d
      → All (IsWithin at start) ds
      → All (Agrees seen c) ds
      → All (Agrees (id_of d ∷ seen) (cache.set (at d) (prefix ++ id_of d) week c)) ds
  unfolding is_seen
  Agrees-set start seen c d [] w ws h = tt
  Agrees-set start seen c d (e ∷ ds) w ws h = (
    rw
        (
          cache.holds-set (at e) (at d) week (prefix ++ id_of d) (prefix ++ id_of e) c,
          same_text-append prefix (id_of e) (id_of d),
        )
        (ground (arith, w, ws.0, h.0)),
    Agrees-set start seen c d ds w ws.1 h.1,
  )

  pub guarded_all_lem :
      (start : ℕ) (seen : List Text) (c : K) (ds : List D) (s : S)
      → All (IsWithin at start) ds
      → All (Agrees seen c) ds
      → (guarded_all ds (c, s)).1 ≡ process_all process (first_of_each id_of seen ds) s
  unfolding guarded_all process_all
  guarded_all_lem start seen c [] s w h = rw (first_of_each-nil id_of seen) refl
  guarded_all_lem start seen c (d ∷ ds) s w h = elim (Bool-cases (is_tracked (id_of d))) [
    | inl tracked ↦ elim (Bool-cases (is_seen (id_of d) seen)) [
      | inl old ↦
          next (is_duplicate_seen cache prefix (at d) (id_of d) c tracked (h.0 ∙ old))
          ∙ guarded_all_lem start seen c ds s w.1 h.1
          ∙ sym (ap (λ l. process_all process l s) (first_of_each_seen id_of seen d ds tracked old))
      | inr new ↦
          next (is_duplicate_new cache prefix (at d) (id_of d) c tracked (h.0 ∙ new))
          ∙ guarded_all_lem start (id_of d ∷ seen) (cache.set (at d) (prefix ++ id_of d) week c) ds
              (process d s) w.1 (Agrees-set start seen c d ds w.0 w.1 h.1)
          ∙ sym (ap (λ l. process_all process l s) (first_of_each_new id_of seen d ds tracked new))
    ]
    | inr untracked ↦
        next (is_duplicate_untracked cache prefix (at d) (id_of d) c untracked)
        ∙ guarded_all_lem start seen c ds (process d s) w.1 h.1
        ∙ sym
            (ap (λ l. process_all process l s) (first_of_each_untracked id_of seen d ds untracked))
  ]
    where
      next :
          {b : Bool} {c' : K}
          → is_duplicate cache prefix (at d) (id_of d) c ≡ (b, c')
          → (guarded_all ds (guarded d (c, s))).1
            ≡ (guarded_all ds (c', if b then s else process d s)).1
      next e = ap (λ q. (guarded_all ds q).1) (guarded_as d c s e)
