-- ===== src/Lru/Moves.antt =====
-- src/core/lru_cache.rs: moving, adding and taking out a node changes links only.
use jasonisnthappy.Base.{
  ℕ, ◌<◌, ◌≡◌, refl, inl, inr, Bool, true, false, Option, none, some, length, arith, Bool-cases,
  if◌then◌else◌,
}
use jasonisnthappy.Lru.Arena.{
  Node, LruCacheInner, is_link, set_prev, set_next, set_links, unless_empty, push_front, unlink,
  tail_before, head_behind, move_slot, move_to_front,
}
use jasonisnthappy.Lru.Links.{
  update_node-Relinks, InRange, IsLinked, Relinking, Relinks, Relinks-trans, SamePages,
  SamePages-refl, SlotLinks, bind-Relinks, get_elem?-range, relinked, update_link-Relinks,
}

set_prev-Relinking : (n : ℕ) (link : Option ℕ) → InRange n link → Relinking n (set_prev link)
set_prev-Relinking n link h = record {
  leads = λ node p q. (h, q);
  page_num = λ node. refl;
  page_data = λ node. refl;
}

set_next-Relinking : (n : ℕ) (link : Option ℕ) → InRange n link → Relinking n (set_next link)
set_next-Relinking n link h = record {
  leads = λ node p q. (p, h);
  page_num = λ node. refl;
  page_data = λ node. refl;
}

either-Relinks :
    (s x y : LruCacheInner) (t : Option ℕ)
    → Relinks s (some x)
    → Relinks s (some y)
    → Relinks s (some (elim t [ none ↦ x | some _ ↦ y ]))
either-Relinks s x y none p q = p
either-Relinks s x y (some _) p q = q

fronted-Relinks :
    (idx : ℕ) (s : LruCacheInner)
    → IsLinked s
    → idx < length s.nodes
    → Relinks s (some (unless_empty idx (record s { head = some idx })))
fronted-Relinks idx s l h =
    either-Relinks s (record s { head = some idx; tail = some idx }) (record s { head = some idx })
      s.tail
      (relinked (record { head = h; tail = h; links = l.links })
        (record { size = refl; slots = λ i. refl; cache = refl; dirty = refl; free_list = refl }))
      (relinked (record { head = h; tail = l.tail; links = l.links })
        (record { size = refl; slots = λ i. refl; cache = refl; dirty = refl; free_list = refl }))

pub push_front-Relinks :
    (idx : ℕ) (s : LruCacheInner) → IsLinked s → idx < length s.nodes → Relinks s (push_front idx s)
unfolding push_front
push_front-Relinks idx s l h =
    bind-Relinks s _ _
      (update_node-Relinks (set_links none s.head) idx s l
        (record {
          leads = λ node p q. (tt, l.head);
          page_num = λ node. refl;
          page_data = λ node. refl;
        })
        h)
      (λ s₁ l₁ p₁.
        bind-Relinks s₁ _ _
          (update_link-Relinks (set_prev (some idx)) s₁.head s₁ l₁
            (set_prev-Relinking _ (some idx) (omega (arith, p₁.size))) l₁.head)
          (λ s₂ l₂ p₂. fronted-Relinks idx s₂ l₂ (omega (arith, p₁.size, p₂.size))))

pub unlink-Relinks :
    (node : Node) (s : LruCacheInner)
    → IsLinked s
    → SlotLinks (length s.nodes) (some (some node))
    → Relinks s (unlink node s)
unfolding unlink
unlink-Relinks node s l h =
    bind-Relinks s _ _
      (update_link-Relinks (set_next node.next) node.prev s l (set_next-Relinking _ node.next h.1)
        h.0)
      (λ s₁ l₁ p₁.
        let q : InRange (length s₁.nodes) node.prev × InRange (length s₁.nodes) node.next =
          rw p₁.size h in
        update_link-Relinks (set_prev node.prev) node.next s₁ l₁
          (set_prev-Relinking _ node.prev q.0) q.1)

chosen-InRange :
    (n : ℕ) (b : Bool) (x y : Option ℕ) → InRange n x → InRange n y → InRange n (if b then x else y)
chosen-InRange n true x y p q = p
chosen-InRange n false x y p q = q

-- the tail moves off a node that is taken out, and so does the head
pub tail_before-IsLinked :
    (idx : ℕ) (node : Node) (s : LruCacheInner)
    → IsLinked s
    → InRange (length s.nodes) node.prev
    → IsLinked (tail_before idx node s)
tail_before-IsLinked idx node s l h = record {
  head = l.head;
  tail = chosen-InRange _ (is_link idx s.tail) node.prev s.tail h l.tail;
  links = l.links;
}

pub head_behind-IsLinked :
    (idx : ℕ) (node : Node) (s : LruCacheInner)
    → IsLinked s
    → InRange (length s.nodes) node.next
    → IsLinked (head_behind idx node s)
head_behind-IsLinked idx node s l h = record {
  head = chosen-InRange _ (is_link idx s.head) node.next s.head h l.head;
  tail = l.tail;
  links = l.links;
}

move_slot-Relinks :
    (idx : ℕ) (s : LruCacheInner) (slot : Option Node)
    → IsLinked s
    → idx < length s.nodes
    → SlotLinks (length s.nodes) (some slot)
    → Relinks s (move_slot idx s (some slot))
move_slot-Relinks idx s none l h k = relinked l (SamePages-refl s)
move_slot-Relinks idx s (some node) l h k =
    bind-Relinks s _ _ (unlink-Relinks node s l k) (λ s₁ l₁ p₁.
      let q : InRange (length s₁.nodes) node.prev = rw p₁.size (k.0) in
      Relinks-trans s₁ (tail_before idx node s₁) _
        (record { size = refl; slots = λ i. refl; cache = refl; dirty = refl; free_list = refl })
        (push_front-Relinks idx (tail_before idx node s₁) (tail_before-IsLinked idx node s₁ l₁ q)
          (omega (arith, p₁.size))))

pub move_to_front-Relinks :
    (idx : ℕ) (s : LruCacheInner)
    → IsLinked s
    → idx < length s.nodes
    → Relinks s (move_to_front idx s)
unfolding move_to_front
move_to_front-Relinks idx s l h = elim (Bool-cases (is_link idx s.head)) [
  | inl front ↦ rw (front, move_to_front) (relinked l (SamePages-refl s))
  | inr behind ↦
      let (slot, e) = get_elem?-range s.nodes idx h in
      rw (behind, e, move_to_front) (move_slot-Relinks idx s slot l h (rw e at (l.links idx)))
]

-- what such a run leaves
pub Relinks-run :
    (s : LruCacheInner) (r : Option LruCacheInner)
    → Relinks s r
    → (s' : LruCacheInner) × (r ≡ some s') × IsLinked s' × SamePages s s'
Relinks-run s none h = elim h [ ]
Relinks-run s (some s') (relinked l p) = (s', refl, l, p)
