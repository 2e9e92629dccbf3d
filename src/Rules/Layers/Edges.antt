-- ===== src/Rules/Layers/Edges.antt =====
-- One edge of the loop of `topologicalLayers` of packages/rules/src/dependency-graph.ts.
use unifold.Prelude.{
  ℕ, zero, suc, ◌≤◌, ◌≡◌, sym, ap, ◌∙◌, subst, ◌≢◌, ◌⊎◌, inl, inr, true, false, none, some, List,
  [], ◌∷◌, ◌++◌, append_assoc, arith, if◌then◌else◌, Bool-cases, Option-cases, nat_eq, ==_refl,
  ==_ne, length, Text, text_eq, Map, get, put, get-put_cases, Member, has_iff, has, Member-append,
}
use unifold.Rules.Layers.{ℤ, pos, negsuc, pred, is_zero, Progress, count_of, release_edge}
use unifold.Rules.Layers.Rounds.{Distinct, Distinct-last, IsEdge, Waits, Inv}

module _ (downstream : Map Text (List Text)) where
  first-Waits :
      (c : Text) (n : ℕ) (cs : List Text) (layers : Map Text ℕ)
      → Waits downstream c (if has c (c ∷ cs) then n else suc n) layers
      → Waits downstream c n layers
  unfolding has
  first-Waits c n cs layers w =
      let t : has c (c ∷ cs) ≡ true = ground (arith, ==_refl c) in
      subst (λ b. Waits downstream c (if b then n else suc n) layers) t w

  later-Waits :
      (c d : Text) (n : ℕ) (cs : List Text) (layers : Map Text ℕ)
      → c ≢ d
      → Waits downstream d (if has d (c ∷ cs) then n else suc n) layers
      → Waits downstream d (if has d cs then n else suc n) layers
  unfolding has
  later-Waits c d n cs layers apart w =
      let same : has d (c ∷ cs) ≡ has d cs = ground (arith, ==_ne c d apart) in
      subst (λ b. Waits downstream d (if b then n else suc n) layers) same w

  -- One edge is done and the count of the consumer does not come to 0.
  quiet_edge :
      (layer : ℕ) (c : Text) (cs rest : List Text) (p : Progress) (z : ℤ)
      → Inv downstream layer (c ∷ cs) rest p
      → has c cs ≡ false
      → ((n : ℕ) → z ≡ pos (suc n) → get c p.remaining ≡ some (pos (suc (suc n))))
      → Inv downstream layer cs rest (record p { remaining = put c z p.remaining })
  quiet_edge layer c cs rest p z v single fell = record {
    spent = λ x h n e. elim (get-put_cases c x z (pos (suc n)) p.remaining e) [
      | inl (same, val) ↦
          v.spent x h (suc n)
            (subst (λ y. get y p.remaining ≡ some (pos (suc (suc n)))) same (fell n val))
      | inr (apart, at) ↦ v.spent x h n at
    ];
    waits = λ d n e. elim (get-put_cases c d z (pos (suc n)) p.remaining e) [
      | inl (same, val) ↦
          subst (λ y. Waits downstream y (if has y cs then n else suc n) p.layers) same
            (subst (λ b. Waits downstream c (if b then n else suc n) p.layers) (sym single)
              (first-Waits c (suc n) cs p.layers (v.waits c (suc n) (fell n val))))
      | inr (apart, at) ↦ later-Waits c d n cs p.layers apart (v.waits d n at)
    ];
    distinct = v.distinct;
    fresh = v.fresh;
    ready = v.ready;
    next = v.next;
    below = v.below;
    ranked = v.ranked;
  }

  member_last :
      (x c : Text) (rest pending : List Text)
      → Member x (rest ++ (pending ++ c ∷ []))
      → Member x (rest ++ pending) ⊎ (c ≡ x)
  member_last x c rest pending m =
      elim ((Member-append x (rest ++ pending) (c ∷ [])).0
        (subst (λ l. Member x l) (sym (append_assoc rest pending (c ∷ []))) m)) [
          | inl n ↦ inl n
          | inr (inl e) ↦ inr e
          | inr (inr bad) ↦ absurd bad
        ]

  -- One edge is done and the count of the consumer comes to 0: it is pending.
  last_edge :
      (layer : ℕ) (c : Text) (cs rest : List Text) (p : Progress)
      → Inv downstream layer (c ∷ cs) rest p
      → get c p.remaining ≡ some (pos 1)
      → Inv downstream layer cs rest
          (record p { pending = p.pending ++ c ∷ []; remaining = put c (pos 0) p.remaining })
  last_edge layer c cs rest p v at =
      let new : has c (rest ++ p.pending) ≡ false = elim (Bool-cases (has c (rest ++ p.pending))) [
        | inl t ↦ absurd (v.spent c (inl ((has_iff c (rest ++ p.pending)).0 t)) 0 at)
        | inr f ↦ f
      ] in
      let free : get c p.layers ≡ none = elim (Option-cases (get c p.layers)) [
        | inl e ↦ e
        | inr (l, e) ↦ absurd (v.spent c (inr (l, e)) 0 at)
      ] in
      let (ws, short, covers) = first-Waits c 0 cs p.layers (v.waits c 0 at) in
      record {
        spent = λ x h n e. elim (get-put_cases c x (pos 0) (pos (suc n)) p.remaining e) [
          | inl (same, val) ↦ cc
          | inr (apart, there) ↦
              v.spent x
                (elim h [
                  | inl m ↦ elim (member_last x c rest p.pending m) [
                    | inl k ↦ inl k
                    | inr same ↦ absurd (apart same)
                  ]
                  | inr k ↦ inr k
                ])
                n there
        ];
        waits = λ d n e. elim (get-put_cases c d (pos 0) (pos (suc n)) p.remaining e) [
          | inl (same, val) ↦ cc
          | inr (apart, there) ↦ later-Waits c d n cs p.layers apart (v.waits d n there)
        ];
        distinct =
            subst (λ l. Distinct l) (append_assoc rest p.pending (c ∷ []))
              (Distinct-last (rest ++ p.pending) c v.distinct new);
        fresh = λ x m. elim (member_last x c rest p.pending m) [
          | inl k ↦ v.fresh x k
          | inr same ↦ subst (λ y. get y p.layers ≡ none) same free
        ];
        ready = v.ready;
        next = λ x m q edge. elim (member_last x c [] p.pending m) [
          | inl k ↦ v.next x k q edge
          | inr same ↦ elim (covers q (subst (λ y. IsEdge downstream q y) (sym same) edge)) [
            | inl (l, there) ↦ (l, there, v.below q l there)
            | inr k ↦ absurd (none_in q ws short k)
          ]
        ];
        below = v.below;
        ranked = v.ranked;
      }
    where
      none_in : (q : Text) (ws : List Text) → length ws ≤ 0 → Member q ws → ⊥
      none_in q [] short k = k
      none_in q (w ∷ ws) short k = absurd (omega arith)

  pub edge_done :
      (layer : ℕ) (c : Text) (cs rest : List Text) (p : Progress)
      → Inv downstream layer (c ∷ cs) rest p
      → has c cs ≡ false
      → Inv downstream layer cs rest (release_edge c p)
  unfolding release_edge count_of pred is_zero
  edge_done layer c cs rest p v single = elim (Option-cases (get c p.remaining)) [
    | inl e ↦
        rw (e, release_edge, count_of)
          (quiet_edge layer c cs rest p (negsuc 0) v single (λ n h. cc))
    | inr (pos zero, e) ↦
        rw (e, release_edge, count_of)
          (quiet_edge layer c cs rest p (negsuc 0) v single (λ n h. cc))
    | inr (pos (suc zero), e) ↦ rw (e, release_edge, count_of) (last_edge layer c cs rest p v e)
    | inr (pos (suc (suc n)), e) ↦
        rw (e, release_edge, count_of)
          (quiet_edge layer c cs rest p (pos (suc n)) v single
            (λ m h. e ∙ ap (λ (z : ℤ). some (up z)) h))
    | inr (negsuc n, e) ↦
        rw (e, release_edge, count_of)
          (quiet_edge layer c cs rest p (negsuc (suc n)) v single (λ m h. cc))
  ]
    where
      up : ℤ → ℤ
      up (pos k) = pos (suc k)
      up (negsuc k) = negsuc k
