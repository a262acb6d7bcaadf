-- ===== src/Block/Execute/Contained.antt =====
-- What no request changes, whatever its effect.
use libvirtio.Base.{
  ℕ, zero, suc, ◌+◌, ◌-◌, ◌≤◌, ◌<◌, ◌≡◌, ◌≢◌, ◌⊎◌, inl, inr, refl, ◌∙◌, true, false, List, [], ◌∷◌,
  none, arith, leb, length, get_elem?, Option-cases,
}
use libvirtio.Buffers.Deposit.{deposit_outside}
use libvirtio.Block.{BlockRequestType, BlockRequest}
use libvirtio.Block.File.{HostFile, laid_at}
use libvirtio.Block.Execute.{Limits}
use libvirtio.Block.Execute.Leases.{covered}
use libvirtio.Block.Execute.Perform.{length-mapped}
use libvirtio.Block.Execute.Effect.{
  Contents, View, Effect, Untouched, OutsidePayload, start, span_length, did_read, did_write,
  did_flush, refused, read_failed, write_failed, flush_failed, not_supported,
}

get_elem?-beyond : (bs : List ℕ) (i : ℕ) → length bs ≤ i → get_elem? bs i ≡ none
get_elem?-beyond [] i le = refl
get_elem?-beyond (b ∷ bs) zero le = absurd (omega arith)
get_elem?-beyond (b ∷ bs) (suc i) le = get_elem?-beyond bs i (omega arith)

pub laid_at_outside :
    (at : ℕ) (bytes : List ℕ) (f : ℕ → ℕ) (x : ℕ)
    → (x < at) ⊎ (at + length bytes ≤ x)
    → laid_at at bytes f x ≡ f x
unfolding laid_at
laid_at_outside at bytes f x (inr le) =
    rw (laid_at, get_elem?-beyond bytes (x - at) (omega arith)) refl
laid_at_outside at bytes f x (inl lt) = elim (Option-cases (get_elem? bytes (x - at))) [
  | inl e ↦ rw (laid_at, e) refl
  | inr (b, e) ↦ let low : leb at x ≡ false = ground (arith, lt) in rw (laid_at, e, low) refl
]

-- Nothing at or beyond the capacity is changed, nothing of a disk that is read only, nothing by a
-- request that is not one to write, and nothing of the guest's outside of the payload.
pub record Contained (limits : Limits) (r : BlockRequest) (d : Contents) (v : View) (d' : Contents)
    (v' : View) : Type 0 where
  pub beyond : (x : ℕ) → limits.capacity ≤ x → d' x ≡ d x
  pub read_only : limits.read_only ≡ true → Untouched d d'
  pub others : r.request_type ≢ BlockRequestType.output → Untouched d d'
  pub outside : (x : ℕ) → OutsidePayload r x → v' x ≡ v x

pub all_same :
    (limits : Limits) (r : BlockRequest) {d d' : Contents} {v v' : View}
    → Untouched d d'
    → Untouched v v'
    → Contained limits r d v d' v'
all_same limits r disk view = record {
  beyond = λ x _. disk x;
  read_only = λ _. disk;
  others = λ _. disk;
  outside = λ x _. view x;
}

pub Effect-Contained :
    {F : Type 0} (file : HostFile F) (f : F) (limits : Limits) (r : BlockRequest) (d : Contents)
    (v : View) (d' : Contents) (v' : View) (status : ℕ)
    → Effect file f limits r d v d' v' status
    → Contained limits r d v d' v'
Effect-Contained file f limits r d v d' v' _ (did_read ty fits disk view) = record {
  beyond = λ x _. disk x;
  read_only = λ _. disk;
  others = λ _. disk;
  outside = λ x out. view x ∙ deposit_outside (covered r.payload) _ v x out;
}
Effect-Contained file f limits r d v d' v' _ (did_write bytes ty fits writable given disk view) =
    record {
      beyond = λ x le. disk x ∙ laid_at_outside (start r) bytes d x (inr (omega (arith, size)));
      read_only = λ ro. cc;
      others = λ other. absurd (other ty);
      outside = λ x _. view x;
    }
  where
    size : length bytes ≡ span_length r
    size = length-mapped v bytes (covered r.payload) given
Effect-Contained file f limits r d v d' v' _ (did_flush ty on synced disk view) =
    all_same limits r disk view
Effect-Contained file f limits r d v d' v' _ (refused why disk view) = all_same limits r disk view
Effect-Contained file f limits r d v d' v' _ (read_failed ty fits short disk view) = record {
  beyond = λ x _. disk x;
  read_only = λ _. disk;
  others = λ _. disk;
  outside = view;
}
Effect-Contained file f limits r d v d' v' _
      (write_failed bytes ty fits writable given short disk view) =
    record {
      beyond = λ x le. disk x (inr (omega arith));
      read_only = λ ro. cc;
      others = λ other. absurd (other ty);
      outside = λ x _. view x;
    }
Effect-Contained file f limits r d v d' v' _ (flush_failed ty on failed disk view) =
    all_same limits r disk view
Effect-Contained file f limits r d v d' v' _ (not_supported why disk view) =
    all_same limits r disk view
