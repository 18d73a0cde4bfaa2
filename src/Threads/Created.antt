-- ===== src/Threads/Created.antt =====
-- A new thread joins the ring.
use bhos.Common.{
  ℕ, ◌+◌, ◌≡◌, refl, ◌∙◌, Bool, true, false, none, some, List, [], ◌∷◌, arith, has, ◌==◌,
  if◌then◌else◌, Returns, ok, fault, Fault, Bool-cases, inl, inr,
}
use bhos.Threads.{
  Tcb, Threads, is_running, is_ready, time_cont, magic_number, create_thread, created,
}
use bhos.Threads.Ring.{RingTo}

-- A change of one link outside the ring keeps the ring.
pub RingTo-update :
    (tcbs tcbs' : ℕ → Tcb) (cur a : ℕ) (xs : List ℕ)
    → RingTo tcbs cur a xs
    → ((b : ℕ) → has b (a ∷ xs) ≡ true → (tcbs' b).next ≡ (tcbs b).next)
    → RingTo tcbs' cur a xs
RingTo-update tcbs tcbs' cur a [] ring same = ground (arith, same a)
RingTo-update tcbs tcbs' cur a (x ∷ xs) ring same = (
  ground (arith, same a),
  RingTo-update tcbs tcbs' cur x xs ring.1 (λ b m. ground (arith, same b)),
)

-- The links that `created` leaves.
created-next :
    (exit_addr tid func args addr pages pdt : ℕ) (kern : Bool) (s : Threads) (c b : ℕ)
    → (addr == c) ≡ false
    → ((created exit_addr tid func args addr pages kern pdt c s).tcbs b).next
      ≡ (if b == addr then (s.tcbs c).next else if b == c then addr else (s.tcbs b).next)
unfolding created
created-next exit_addr tid func args addr pages pdt true s c b ne = ground arith
created-next exit_addr tid func args addr pages pdt false s c b ne = ground arith

pub created-fields :
    (exit_addr tid func args addr pages pdt : ℕ) (kern : Bool) (s : Threads) (c : ℕ)
    → (addr == c) ≡ false
    → let t = (created exit_addr tid func args addr pages kern pdt c s).tcbs addr in
      (is_ready t.task_status ≡ true)
      × (t.time_left ≡ time_cont)
      × (t.magic ≡ magic_number)
      × (t.eflags ≡ 0x202)
unfolding created
created-fields exit_addr tid func args addr pages pdt true s c ne = ground arith
created-fields exit_addr tid func args addr pages pdt false s c ne = ground arith

-- The other threads keep what they are, and there is one more.
pub created-others :
    (exit_addr tid func args addr pages pdt : ℕ) (kern : Bool) (s : Threads) (c b : ℕ)
    → (addr == b) ≡ false
    → let t = created exit_addr tid func args addr pages kern pdt c s in
      (is_ready (t.tcbs b).task_status ≡ is_ready (s.tcbs b).task_status)
      × ((t.tcbs b).magic ≡ (s.tcbs b).magic)
      × ((t.tcbs b).time_left ≡ (s.tcbs b).time_left)
unfolding created
created-others exit_addr tid func args addr pages pdt true s c b ne = ground arith
created-others exit_addr tid func args addr pages pdt false s c b ne = ground arith

pub created-count :
    (exit_addr tid func args addr pages pdt : ℕ) (kern : Bool) (s : Threads) (c : ℕ)
    → let t = created exit_addr tid func args addr pages kern pdt c s in
      (t.count ≡ s.count + 1) × (t.int_flag ≡ true)
unfolding created
created-count exit_addr tid func args addr pages pdt true s c = (refl, refl)
created-count exit_addr tid func args addr pages pdt false s c = (refl, refl)

pub created-waits :
    (exit_addr tid func args addr pages pdt : ℕ) (kern : Bool) (s : Threads) (c : ℕ)
    → (addr == c) ≡ false
    → is_running ((created exit_addr tid func args addr pages kern pdt c s).tcbs addr).task_status
      ≡ false
unfolding created
created-waits exit_addr tid func args addr pages pdt true s c ne = ground arith
created-waits exit_addr tid func args addr pages pdt false s c ne = ground arith

pub created-cur :
    (exit_addr tid func args addr pages pdt : ℕ) (kern : Bool) (s : Threads) (c : ℕ)
    → (created exit_addr tid func args addr pages kern pdt c s).cur ≡ s.cur
unfolding created
created-cur exit_addr tid func args addr pages pdt true s c = refl
created-cur exit_addr tid func args addr pages pdt false s c = refl

pub has-apart : (b d : ℕ) (xs : List ℕ) → has b xs ≡ true → has d xs ≡ false → (b == d) ≡ false
has-apart b d xs m out = elim (Bool-cases (b == d)) [
  | inl e ↦
      let same : b ≡ d = ground arith in
      let both : has d xs ≡ true = rw same at m in absurd (ground arith)
  | inr e ↦ e
]

-- The ring behind the new thread.
pub created-RingTo :
    (exit_addr tid func args addr pages pdt : ℕ) (kern : Bool) (s : Threads) (c : ℕ) (xs : List ℕ)
    → RingTo s.tcbs c c xs
    → has addr (c ∷ xs) ≡ false
    → has c xs ≡ false
    → RingTo (created exit_addr tid func args addr pages kern pdt c s).tcbs c c (addr ∷ xs)
created-RingTo exit_addr tid func args addr pages pdt kern s c [] ring fresh out =
    let next =
      λ (b : ℕ). created-next exit_addr tid func args addr pages pdt kern s c b (ground arith) in
    (ground (arith, next c), ground (arith, next addr))
created-RingTo exit_addr tid func args addr pages pdt kern s c (x ∷ xs) ring fresh out =
    let next =
      λ (b : ℕ). created-next exit_addr tid func args addr pages pdt kern s c b (ground arith) in
    (
      ground (arith, next c),
      (
        ground (arith, next addr),
        RingTo-update s.tcbs (created exit_addr tid func args addr pages kern pdt c s).tcbs c x xs
            ring.1
            (λ b m.
              let new : (b == addr) ≡ false = has-apart b addr (x ∷ xs) m (ground arith) in
              let old : (b == c) ≡ false = has-apart b c (x ∷ xs) m (ground arith) in
              ground (arith, next b)),
      ),
    )

pub create_thread-some :
    (exit_addr tid func args addr pages pdt : ℕ) (kern : Bool) (s : Threads) (c : ℕ)
    → s.cur ≡ some c
    → create_thread exit_addr tid func args addr pages kern pdt s
      ≡ ok (tt, created exit_addr tid func args addr pages kern pdt c s)
unfolding create_thread
create_thread-some exit_addr tid func args addr pages pdt kern s c h = λ j. elim (h j) [
  | none ↦ fault Fault.null_pointer
  | some cur ↦ ok (tt, created exit_addr tid func args addr pages kern pdt cur s)
]

-- `create_thread` puts the new thread right behind the current one, ready, with a full time slice, a
-- sound stack and interrupts enabled in its saved flags; the other threads keep their order, and the
-- current thread stays current. The call ends without a fault.
pub create_thread-RingTo :
    (exit_addr tid func args addr pages pdt : ℕ) (kern : Bool) (s : Threads) (c : ℕ) (xs : List ℕ)
    → s.cur ≡ some c
    → RingTo s.tcbs c c xs
    → has addr (c ∷ xs) ≡ false
    → has c xs ≡ false
    → Returns
        (λ _ t.
          (t.cur ≡ some c)
          × RingTo t.tcbs c c (addr ∷ xs)
          × (is_ready (t.tcbs addr).task_status ≡ true)
          × ((t.tcbs addr).time_left ≡ time_cont)
          × ((t.tcbs addr).magic ≡ magic_number)
          × ((t.tcbs addr).eflags ≡ 0x202))
        (create_thread exit_addr tid func args addr pages kern pdt s)
unfolding create_thread
create_thread-RingTo exit_addr tid func args addr pages pdt kern s c xs cur ring fresh out =
    let fields = created-fields exit_addr tid func args addr pages pdt kern s c (ground arith) in
    (
      tt,
      created exit_addr tid func args addr pages kern pdt c s,
      create_thread-some exit_addr tid func args addr pages pdt kern s c cur,
      (
        created-cur exit_addr tid func args addr pages pdt kern s c ∙ cur,
        created-RingTo exit_addr tid func args addr pages pdt kern s c xs ring fresh out,
        fields.0,
        fields.1,
        fields.2,
        fields.3,
      ),
    )
