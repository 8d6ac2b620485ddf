-- ===== src/Pager/Refinement.antt =====
-- src/core/pager.rs: reads, writes and flushes in any order, against a map of pages.
use jasonisnthappy.Base.{
  ℕ, ◌*◌, ◌<◌, ◌≡◌, refl, ap, ◌∙◌, inl, inr, false, Option, none, some, List, [], ◌∷◌, length, ◌==◌,
  if◌then◌else◌, arith, u64_mod, Bool-cases,
}
use jasonisnthappy.Base.Error.{Result, ok}
use jasonisnthappy.Wal.Frame.{page_size}
use jasonisnthappy.Pager.State.{Pager}
use jasonisnthappy.Pager.Pages.{read_page, write_page_transfer, flush}
use jasonisnthappy.Pager.Views.{view, Coherent}
use jasonisnthappy.Pager.Access.{read_page-ReadsPage, write_page_transfer-WritesPage}
use jasonisnthappy.Pager.Flush.{flush-Flushes}

pub data Call : Type 0 where
  read_call : ℕ → Call
  write_call : ℕ → List ℕ → Call
  flush_call : Call

pub data Answer : Type 0 where
  page : Result (List ℕ) → Answer
  finished : Result (Unit {0}) → Answer

abbrev answer_of {ℓ} :
    {A : Type ℓ} → (Result A → Answer) → Option (Result A × Pager) → Option (Answer × Pager)
answer_of f none = none
answer_of f (some (r, s)) = some (f r, s)

unfoldable pub perform : Call → Pager → Option (Answer × Pager)
perform (read_call q) s = answer_of page (read_page q s)
perform (write_call q d) s = answer_of finished (write_page_transfer q d s)
perform flush_call s = answer_of finished (flush s)

-- the answers of the calls that are left, behind one
abbrev behind : Answer → Option (List Answer × Pager) → Option (List Answer × Pager)
behind a none = none
behind a (some (as', s)) = some (a ∷ as', s)

unfoldable pub run : List Call → Pager → Option (List Answer × Pager)
run [] s = some ([], s)
run (c ∷ cs) s = elim (perform c s) [ none ↦ none | some (a, s') ↦ behind a (run cs s') ]

-- The pages that are known, by their number.
abbrev pub PageMap : Type 0
PageMap = ℕ → Option (List ℕ)

-- what a call does to the map
abbrev pub apply : Call → PageMap → PageMap
apply (read_call q) m = m
apply (write_call q d) m = λ p. if p == q then some d else m p
apply flush_call m = m

-- A read of a page that is known returns it; a write and a flush succeed.
abbrev pub Right : Call → PageMap → Answer → Type 0
Right (read_call q) m (page r) = (d : List ℕ) → m q ≡ some d → r ≡ ok d
Right (write_call q d) m (finished r) = r ≡ ok tt
Right flush_call m (finished r) = r ≡ ok tt
Right _ m _ = ⊥

abbrev pub AllRight : List Call → PageMap → List Answer → Type 0
AllRight [] m [] = Unit
AllRight (c ∷ cs) m (a ∷ as') = Right c m a × AllRight cs (apply c m) as'
AllRight _ m _ = ⊥

-- Pages are whole, and lie at an offset of 64 bits.
abbrev pub IsCall : Call → Type 0
IsCall (read_call q) = q * page_size < u64_mod
IsCall (write_call q d) = (length d ≡ page_size) × (q * page_size < u64_mod)
IsCall flush_call = Unit

abbrev pub AreCalls : List Call → Type 0
AreCalls [] = Unit
AreCalls (c ∷ cs) = IsCall c × AreCalls cs

-- The pager has the pages of the map.
pub record Shows (s : Pager) (m : PageMap) : Type 0 where
  pub coherent : Coherent s
  pub writable : s.read_only ≡ false
  pub pages : (q : ℕ) (d : List ℕ) → m q ≡ some d → view s q ≡ some d

-- One call that does not panic, answers right, and keeps the pager and the map in step.
record Refines (c : Call) (s : Pager) (m : PageMap) : Type 0 where
  answer : Answer
  after : Pager
  returned : perform c s ≡ some (answer, after)
  right : Right c m answer
  shows : Shows after (apply c m)

perform-Refines : (c : Call) (s : Pager) (m : PageMap) → IsCall c → Shows s m → Refines c s m
unfolding perform
perform-Refines (read_call q) s m h v =
    let r = read_page-ReadsPage s q v.coherent h in
    record {
      answer = page r.answer;
      after = r.after;
      returned = ap (answer_of page) r.returned;
      right = λ d e. r.found d (v.pages q d e);
      shows = record {
        coherent = r.coherent;
        writable = r.read_only ∙ v.writable;
        pages = λ p d e. r.same p ∙ v.pages p d e;
      };
    }
perform-Refines (write_call q d) s m h v =
    let w = write_page_transfer-WritesPage s q d v.coherent v.writable h.0 h.1 in
    record {
      answer = finished (ok tt);
      after = w.after;
      returned = ap (answer_of finished) w.returned;
      right = refl;
      shows = record {
        coherent = w.coherent;
        writable = w.read_only ∙ v.writable;
        pages = λ p e k. elim (Bool-cases (p == q)) [
          | inl same ↦
              let at : p ≡ q = ground arith in
              let mine : some d ≡ some e = rw same at k in ap (view w.after) at ∙ (w.there ∙ mine)
          | inr other ↦ w.others p (λ x. ground arith) ∙ v.pages p e (rw other at k)
        ];
      };
    }
perform-Refines flush_call s m h v =
    let f = flush-Flushes s v.coherent v.writable in
    record {
      answer = finished (ok tt);
      after = f.after;
      returned = ap (answer_of finished) f.returned;
      right = refl;
      shows = record {
        coherent = f.coherent;
        writable = f.read_only ∙ v.writable;
        pages = λ p d e. f.same p d (v.pages p d e);
      };
    }

abbrev pub applied : List Call → PageMap → PageMap
applied [] m = m
applied (c ∷ cs) m = applied cs (apply c m)

pub record RunRefines (cs : List Call) (s : Pager) (m : PageMap) : Type 0 where
  pub answers : List Answer
  pub after : Pager
  pub returned : run cs s ≡ some (answers, after)
  pub right : AllRight cs m answers
  pub shows : Shows after (applied cs m)

-- A pager that is coherent and not read-only implements a map of pages. For any sequence of reads,
-- of writes of whole pages and of flushes, whatever the capacity of the cache: no call panics,
-- every write and every flush succeeds, a read of a page that was known at the start or has been
-- written returns what was last written, and the pager ends with the pages that the map then has.
pub run-RunRefines :
    (cs : List Call) (s : Pager) (m : PageMap) → AreCalls cs → Shows s m → RunRefines cs s m
unfolding run
run-RunRefines [] s m h v = record {
  answers = [];
  after = s;
  returned = refl;
  right = tt;
  shows = v;
}
run-RunRefines (c ∷ cs) s m h v =
    let r = perform-Refines c s m h.0 v in
    let rest = run-RunRefines cs r.after (apply c m) h.1 r.shows in
    record {
      answers = r.answer ∷ rest.answers;
      after = rest.after;
      returned = rw (r.returned, run) (ap (behind r.answer) rest.returned);
      right = (r.right, rest.right);
      shows = rest.shows;
    }
