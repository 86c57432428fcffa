-- ===== src/MitControl/Approaching.antt =====
-- How `approach_target` of dm_openarm/examples/arm_mit_control.cpp moves a target, its sums rounded.
use dmopenarm.Base.{ℕ, ◌+◌, ◌≤◌, ◌≡◌, refl, inl, inr, Bool-cases, true, false, some, arith}
use dmopenarm.Base.Int.{ℤ, pos, ◌+ℤ◌, ◌-ℤ◌, ltb_ℤ, +ℤ_parts, -ℤ_parts}
use dmopenarm.Double.{Double}
use dmopenarm.Double.Rounding.{Rounding, Within, size}
use dmopenarm.MitControl.{approach_target}

Within-refl : (a : ℤ) (m : ℕ) → Within a a m
Within-refl a m = (omega arith, omega arith)

module _ {D : Type 0} ⦃d : Double D⦄ (rounding : Rounding d) where
  open rounding use {value, error, bound}

  -- Both are finite, this close, and far enough from the bound for a step of this many units.
  pub record Near (step m : ℕ) (active target : D) : Type 0 where
    pub at : ℤ
    pub to : ℤ
    pub at_value : value active ≡ some at
    pub to_value : value target ≡ some to
    pub close : Within at to m
    pub in_bound : size to + m + step ≤ bound

  -- The new target is where the test of the code put it.
  approach-cases :
      (step m : ℕ) (s a t : D)
      → value s ≡ some (pos step)
      → (n : Near step m a t) → (P : D → Type 0)
      → ((c : ℤ)
          → value (d.add a s) ≡ some c
          → Within c (n.at +ℤ pos step) error
          → (w : ℤ) → Within w (n.to -ℤ pos step) error
          → ltb_ℤ n.at w ≡ true
          → P (d.add a s))
      → ((c : ℤ)
          → value (d.sub a s) ≡ some c
          → Within c (n.at -ℤ pos step) error
          → (w : ℤ) → Within w (n.to +ℤ pos step) error
          → ltb_ℤ w n.at ≡ true
          → P (d.sub a s))
      → ((w u : ℤ)
          → Within w (n.to -ℤ pos step) error
          → Within u (n.to +ℤ pos step) error
          → ltb_ℤ n.at w ≡ false
          → ltb_ℤ u n.at ≡ false
          → P t)
      → P (approach_target a t s)
  unfolding approach_target
  approach-cases step m s a t e n P up back stay =
      let fits = n.in_bound in
      let (close, close') = n.close in
      let (w, w_value, w_near) =
        rounding.sub_value t s n.to (pos step) n.to_value e
          (ground (arith, -ℤ_parts n.to (pos step))) in
      let (u, u_value, u_near) =
        rounding.add_value t s n.to (pos step) n.to_value e
          (ground (arith, +ℤ_parts n.to (pos step))) in
      let below = rounding.lt_value a (d.sub t s) n.at w n.at_value w_value in
      let above = rounding.lt_value (d.add t s) a u n.at u_value n.at_value in
      elim (Bool-cases (ltb_ℤ n.at w)) [
        | inl is_below ↦
            let (c, c_value, c_near) =
              rounding.add_value a s n.at (pos step) n.at_value e
                (ground (arith, +ℤ_parts n.at (pos step), fits, close, close')) in
            rw (below, is_below) (up c c_value c_near w w_near is_below)
        | inr not_below ↦ elim (Bool-cases (ltb_ℤ u n.at)) [
          | inl is_above ↦
              let (c, c_value, c_near) =
                rounding.sub_value a s n.at (pos step) n.at_value e
                  (ground (arith, -ℤ_parts n.at (pos step), fits, close, close')) in
              rw (below, not_below, above, is_above) (back c c_value c_near u u_near is_above)
          | inr not_above ↦
              rw (below, not_below, above, not_above) (stay w u w_near u_near not_below not_above)
        ]
      ]

  -- A number, a step and a rounding error away at most.
  pub record MovedBy (m : ℕ) (from to : D) : Type 0 where
    pub before : ℤ
    pub after : ℤ
    pub from_value : value from ≡ some before
    pub to_value : value to ≡ some after
    pub close : Within after before m

  pub approach_target-MovedBy :
      (step m : ℕ) (s a t : D)
      → value s ≡ some (pos step)
      → Near step m a t
      → MovedBy (step + error) a (approach_target a t s)
  approach_target-MovedBy step m s a t e n =
      approach-cases step m s a t e n (MovedBy (step + error) a)
        (λ c v near w w_near b. record {
          before = n.at;
          after = c;
          from_value = n.at_value;
          to_value = v;
          close = ground (arith, near, +ℤ_parts n.at (pos step));
        })
        (λ c v near w w_near b. record {
          before = n.at;
          after = c;
          from_value = n.at_value;
          to_value = v;
          close = ground (arith, near, -ℤ_parts n.at (pos step));
        })
        (λ w u w_near u_near b b'. record {
          before = n.at;
          after = n.to;
          from_value = n.at_value;
          to_value = n.to_value;
          close =
              ground
                (arith, w_near, u_near, b, b', +ℤ_parts n.to (pos step), -ℤ_parts n.to (pos step));
        })

  module _ (travel : ℕ) (s : D) where
    -- One round nearer, by a step less a rounding error.
    pub approach_target-Near :
        (m : ℕ) (a t : D)
        → value s ≡ some (pos (travel + error))
        → error + error ≤ m
        → Near (travel + error) (travel + m) a t
        → Near (travel + error) m (approach_target a t s) t
    approach_target-Near m a t e small n =
        approach-cases (travel + error) (travel + m) s a t e n (λ x. Near (travel + error) m x t)
          (λ c v near w w_near b. record {
            at = c;
            to = n.to;
            at_value = v;
            to_value = n.to_value;
            close = ground (
              arith,
              near,
              w_near,
              b,
              small,
              n.close,
              +ℤ_parts n.at (pos (travel + error)),
              -ℤ_parts n.to (pos (travel + error)),
            );
            in_bound = omega (arith, n.in_bound);
          })
          (λ c v near w w_near b. record {
            at = c;
            to = n.to;
            at_value = v;
            to_value = n.to_value;
            close = ground (
              arith,
              near,
              w_near,
              b,
              small,
              n.close,
              -ℤ_parts n.at (pos (travel + error)),
              +ℤ_parts n.to (pos (travel + error)),
            );
            in_bound = omega (arith, n.in_bound);
          })
          (λ w u w_near u_near b b'. record {
            at = n.to;
            to = n.to;
            at_value = n.to_value;
            to_value = n.to_value;
            close = Within-refl n.to m;
            in_bound = omega (arith, n.in_bound);
          })

    -- From a step less a rounding error away, the target is reached.
    pub approach_target-reaches :
        (a t : D)
        → value s ≡ some (pos (travel + error))
        → Near (travel + error) travel a t
        → approach_target a t s ≡ t
    approach_target-reaches a t e n =
        approach-cases (travel + error) travel s a t e n (λ x. x ≡ t)
          (λ c v near w w_near b.
            absurd (ground (arith, w_near, b, n.close, -ℤ_parts n.to (pos (travel + error)))))
          (λ c v near w w_near b.
            absurd (ground (arith, w_near, b, n.close, +ℤ_parts n.to (pos (travel + error)))))
          (λ w u w_near u_near b b'. refl)
