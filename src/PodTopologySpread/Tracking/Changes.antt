-- ===== src/PodTopologySpread/Tracking/Changes.antt =====
-- `update` of pkg/podtopologyspread/filtering.go, at the value that is followed and at the others.
use cozystack_scheduler.Prelude.{
  ℕ, ◌≤◌, ◌≡◌, refl, ◌⊎◌, inl, inr, String, true, false, arith, ◌==◌, string_eq, if◌then◌else◌,
  Bool-cases, ltb,
}
use cozystack_scheduler.Words.{slt}
use cozystack_scheduler.PodTopologySpread.CriticalPaths.{
  CriticalPath, CriticalPaths, max_int32, in_order, update,
}

-- Where the value has the number `a` and the least number of the others is `b`: one of the paths is
-- the value's and the other has the least of the others, or both are of others and the value's number
-- is not less than theirs.
abbrev pub Tracks : String → ℕ → ℕ → CriticalPaths → Type 0
Tracks x a b p =
    ((x == p.first.topology_value ≡ true)
      × (p.first.match_num ≡ a)
      × (p.second.match_num ≡ b)
      × (a ≤ b)
      × ((x == p.second.topology_value ≡ false) ⊎ (b ≡ max_int32)))
    ⊎ ((x == p.first.topology_value ≡ false)
        × (x == p.second.topology_value ≡ true)
        × (p.second.match_num ≡ a)
        × (p.first.match_num ≡ b)
        × (b ≤ a))
    ⊎ ((x == p.first.topology_value ≡ false)
        × (x == p.second.topology_value ≡ false)
        × (p.first.match_num ≡ b)
        × (b ≤ p.second.match_num)
        × (p.second.match_num ≤ a))

-- What holds of both paths and of the updated one holds of both paths afterwards.
abbrev pub Both : (CriticalPath → Type 0) → CriticalPaths → Type 0
Both P p = P p.first × P p.second

abbrev Updated : String → ℕ → CriticalPath → Type 0
Updated v num path = (v == path.topology_value ≡ true) × (path.match_num ≡ num)

in_order-Both : (P : CriticalPath → Type 0) (p : CriticalPaths) → Both P p → Both P (in_order p)
in_order-Both P p (f, s) = elim (Bool-cases (slt p.second.match_num p.first.match_num)) [
  | inl e ↦ rw (in_order, e) (s, f)
  | inr e ↦ rw (in_order, e) (f, s)
]

pub update-Both :
    (P : CriticalPath → Type 0) (p : CriticalPaths) (v : String) (num : ℕ)
    → ((path : CriticalPath) → Updated v num path → P path)
    → Both P p
    → Both P (update p v num)
unfolding update
update-Both P p v num h (f, s) =
    let self : v == v ≡ true = (string_eq.beq_iff v v).1 refl in
    elim (Bool-cases (v == p.first.topology_value)) [
      | inl i ↦ rw (update, i) (in_order-Both P _ (h _ (i, refl), s))
      | inr i ↦ elim (Bool-cases (v == p.second.topology_value)) [
        | inl j ↦ rw (update, i, j) (in_order-Both P _ (f, h _ (j, refl)))
        | inr j ↦ elim (Bool-cases (slt num p.first.match_num)) [
          | inl w ↦ rw (update, i, j, w) (h _ (self, refl), f)
          | inr w ↦ elim (Bool-cases (slt num p.second.match_num)) [
            | inl w' ↦ rw (update, i, j, w, w') (f, h _ (self, refl))
            | inr w' ↦ rw (update, i, j, w, w') (f, s)
          ]
        ]
      ]
    ]

slt_lem : (a b : ℕ) → a ≤ max_int32 → b ≤ max_int32 → slt a b ≡ ltb a b
slt_lem a b h k = ground arith

abbrev pub IsSmall : CriticalPath → Type 0
IsSmall path = path.match_num ≤ max_int32

abbrev pub Fits : CriticalPaths → Type 0
Fits = Both IsSmall

abbrev in_order_small : CriticalPaths → CriticalPaths
in_order_small p =
    if ltb p.second.match_num p.first.match_num
    then record { first = p.second; second = p.first }
    else p

-- `update` on numbers that fit an int32.
abbrev update_small : CriticalPaths → String → ℕ → CriticalPaths
update_small p v num =
    if v == p.first.topology_value
    then in_order_small (record p { first = record (p.first) { match_num = num } })
    else if v == p.second.topology_value
    then in_order_small (record p { second = record (p.second) { match_num = num } })
    else if ltb num p.first.match_num
    then record { first = record { topology_value = v; match_num = num }; second = p.first }
    else if ltb num p.second.match_num
    then record p { second = record { topology_value = v; match_num = num } }
    else p

update-small :
    (p : CriticalPaths) (v : String) (num : ℕ)
    → num ≤ max_int32
    → Fits p
    → update p v num ≡ update_small p v num
unfolding update
update-small p v num h (f, s) =
    rw
      (
        update,
        slt_lem p.second.match_num num s h,
        slt_lem num p.first.match_num h f,
        slt_lem num p.second.match_num h s,
      )
      refl

in_order_small-Tracks :
    (x : String) (a b : ℕ) (p : CriticalPaths)
    → a ≤ max_int32
    → ((x == p.first.topology_value ≡ true)
        × (p.first.match_num ≡ a)
        × (p.second.match_num ≡ b)
        × ((x == p.second.topology_value ≡ false) ⊎ (b ≡ max_int32)))
      ⊎ ((x == p.first.topology_value ≡ false)
          × (x == p.second.topology_value ≡ true)
          × (p.second.match_num ≡ a)
          × (p.first.match_num ≡ b))
    → Tracks x a b (in_order_small p)
in_order_small-Tracks x a b p h t = elim (Bool-cases (ltb p.second.match_num p.first.match_num)) [
  | inl e ↦ rw e (ground arith)
  | inr e ↦ rw e (ground arith)
]

-- Changing the value's number.
pub update-Tracks :
    (x : String) (a b num : ℕ) (p : CriticalPaths)
    → num ≤ max_int32
    → Fits p
    → Tracks x a b p
    → Tracks x num b (update p x num)
update-Tracks x a b num p h f (inl (e, n, m, l, d)) =
    rw (update-small p x num h f, e) (in_order_small-Tracks x num b _ h (inl (e, refl, m, d)))
update-Tracks x a b num p h f (inr (inl (e, d, n, m, l))) =
    rw (update-small p x num h f, e, d) (in_order_small-Tracks x num b _ h (inr (e, d, refl, m)))
update-Tracks x a b num p h f (inr (inr (e, d, n, m, l))) =
    let self : x == x ≡ true = (string_eq.beq_iff x x).1 refl in
    elim (Bool-cases (ltb num p.first.match_num)) [
      | inl i ↦ rw (update-small p x num h f, e, d, i) (ground (arith, self))
      | inr i ↦ elim (Bool-cases (ltb num p.second.match_num)) [
        | inl j ↦ rw (update-small p x num h f, e, d, i, j) (ground (arith, self))
        | inr j ↦ rw (update-small p x num h f, e, d, i, j) (ground arith)
      ]
    ]

-- The lesser of two numbers.
abbrev pub IsLesser : ℕ → ℕ → ℕ → Type 0
IsLesser c b k = ((c ≡ k) × (k ≤ b)) ⊎ ((c ≡ b) × (b ≤ k))

-- A path that has the value's text is one of the empty paths.
abbrev pub IsNew : String → CriticalPath → Type 0
IsNew y path = (y == path.topology_value ≡ true) → path.match_num ≡ max_int32

differs : (x y z : String) → x == y ≡ false → y == z ≡ true → x == z ≡ false
differs x y z h e = elim (Bool-cases (x == z)) [
  | inr i ↦ i
  | inl i ↦ ground (arith, string_eq.beq_iff x y, string_eq.beq_iff y z, string_eq.beq_iff x z)
]

-- Adding a value that the paths have not seen.
pub update-other :
    (x y : String) (a b c k : ℕ) (p : CriticalPaths)
    → x == y ≡ false
    → a ≤ max_int32
    → k ≤ max_int32
    → IsLesser c b k
    → Fits p
    → IsNew y p.first
    → IsNew y p.second
    → Tracks x a b p
    → Tracks x a c (update p y k)
update-other x y a b c k p o g h q f u v t = elim (Bool-cases (y == p.first.topology_value)) [
  | inl i ↦ elim t [
    | inl (e, n, m, l, d) ↦ cc (differs x y p.first.topology_value o i)
    | inr (inl (e, d, n, m, l)) ↦
        let top = u i in
        let same : c ≡ k = ground arith in
        rw (update-small p y k h f, i, same) (in_order_small-Tracks x a k _ g (inr (e, d, n, refl)))
    | inr (inr (e, d, n, m, l)) ↦
        let top = u i in
        let same : c ≡ k = ground arith in
        let still : ltb p.second.match_num k ≡ false = ground arith in
        rw (update-small p y k h f, i, same, still) (ground arith)
  ]
  | inr i ↦ elim (Bool-cases (y == p.second.topology_value)) [
    | inl j ↦
        let top = v j in
        elim t [
          | inl (e, n, m, l, d) ↦
              let same : c ≡ k = ground arith in
              rw (update-small p y k h f, i, j, same)
                (in_order_small-Tracks x a k _ g
                  (inl (e, n, refl, inl (differs x y p.second.topology_value o j))))
          | inr (inl (e, d, n, m, l)) ↦ cc (differs x y p.second.topology_value o j)
          | inr (inr (e, d, n, m, l)) ↦ elim (Bool-cases (ltb k p.first.match_num)) [
            | inl w ↦ rw (update-small p y k h f, i, j, w) (ground arith)
            | inr w ↦ rw (update-small p y k h f, i, j, w) (ground arith)
          ]
        ]
    | inr j ↦ elim (Bool-cases (ltb k p.first.match_num)) [
      | inl w ↦ rw (update-small p y k h f, i, j, w) (ground arith)
      | inr w ↦ elim (Bool-cases (ltb k p.second.match_num)) [
        | inl w' ↦ rw (update-small p y k h f, i, j, w, w') (ground arith)
        | inr w' ↦ rw (update-small p y k h f, i, j, w, w') (ground arith)
      ]
    ]
  ]
]
