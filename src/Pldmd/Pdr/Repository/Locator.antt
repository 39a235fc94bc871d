-- ===== src/Pldmd/Pdr/Repository/Locator.antt =====
-- pldmd/src/pdr_manager.cpp, constructPDRRepo: what a repository holds when it could be built.
use pmci.Prelude.{
  ℕ, ◌+◌, ◌≤◌, ◌≡◌, ◌↔◌, refl, ap, ◌∙◌, sym, Bool, true, false, List, [], ◌∷◌, none, some, Bytes,
  arith, ◌==◌, ==→eq, ==_iff, Bool-cases, Option-cases, inl, inr, if◌then◌else◌,
}
use pmci.Prelude.Map.{Map}
use pmci.Pldmd.PackageImage.Components.{u16_at}
use pmci.Pldmd.Transport.Bus.{Bus}
use pmci.Pldmd.Pdr.Transfer.{RepositoryInfo, fetch_records}
use pmci.Pldmd.Pdr.Transfer.Bounds.{IsKept, fetch_records-IsKept}
use pmci.Pldmd.Pdr.Repository.{
  PdrLib, Repository, is_valid_locator, set, add_records, all_added, construct_pdr_repo,
}

-- How many valid terminus locators there are.
abbrev pub locators : List (ℕ × Bytes) → ℕ
locators [] = 0
locators ((handle, pdr_record) ∷ rest) =
    if is_valid_locator pdr_record then locators rest + 1 else locators rest

-- The container id that the valid locators give, or the one before.
abbrev pub container_of : List (ℕ × Bytes) → ℕ → ℕ
container_of [] id = id
container_of ((handle, pdr_record) ∷ rest) id =
    container_of rest (if is_valid_locator pdr_record then u16_at 14 pdr_record else id)

abbrev one_if : Bool → ℕ
one_if true = 1
one_if false = 0

module _ {R : Type 0} (lib : PdrLib R) (tid : ℕ) where
  -- All records in the repository, the locators with the TID of the terminus.
  abbrev pub add_all : List (ℕ × Bytes) → R → R
  add_all [] repo = repo
  add_all ((handle, pdr_record) ∷ rest) repo = add_all rest (
      lib.add (if is_valid_locator pdr_record then set pdr_record 13 tid else pdr_record) handle
        repo)

  add_records-true :
      (l : List (ℕ × Bytes)) (found : Bool) (s : Repository R)
      → (add_records lib tid l found s).1 ≡ true
      → (locators l + one_if found ≤ 1)
        × ((add_records lib tid l found s).0.pdr_repo ≡ add_all l s.pdr_repo)
        × ((add_records lib tid l found s).0.container_id ≡ container_of l s.container_id)
  unfolding add_records
  add_records-true [] true s h = (omega arith, refl, refl)
  add_records-true [] false s h = (omega arith, refl, refl)
  add_records-true ((handle, r) ∷ rest) found s h = elim (Bool-cases (is_valid_locator r)) [
    | inl k ↦
        let s' : Repository R = record {
          container_id = u16_at 14 r;
          pdr_repo = lib.add (set r 13 tid) handle s.pdr_repo;
        } in
        let g : (add_records lib tid rest true s').1 ≡ true = ground (arith, k, h) in
        let f : found ≡ false = ground (arith, k, h) in
        let (a, b, c) = add_records-true rest true s' g in rw (k, f) (omega (arith, a), b, c)
    | inr k ↦
        let s' : Repository R = record s { pdr_repo = lib.add r handle s.pdr_repo } in
        let g : (add_records lib tid rest found s').1 ≡ true = ground (arith, k, h) in
        let (a, b, c) = add_records-true rest found s' g in rw k (a, b, c)
  ]

  -- More than one valid terminus locator is refused.
  add_records-one :
      (l : List (ℕ × Bytes)) (found : Bool) (s : Repository R)
      → locators l + one_if found ≤ 1
      → (add_records lib tid l found s).1 ≡ true
  unfolding add_records
  add_records-one [] found s h = refl
  add_records-one ((handle, r) ∷ rest) found s h = elim (Bool-cases (is_valid_locator r)) [
    | inl k ↦
        let n : locators rest + 1 + one_if found ≤ 1 = rw k at h in
        let f : found ≡ false = elim (Bool-cases found) [
          | inl t ↦ absurd (omega (arith, n, ap one_if t))
          | inr t ↦ t
        ] in
        let ih =
          add_records-one rest true
            (record {
              container_id = u16_at 14 r;
              pdr_repo = lib.add (set r 13 tid) handle s.pdr_repo;
            })
            (omega (arith, n)) in
        rw (k, f) ih
    | inr k ↦
        let n : locators rest + one_if found ≤ 1 = rw k at h in
        rw k (add_records-one rest found (record s { pdr_repo = lib.add r handle s.pdr_repo }) n)
  ]

  -- A repository that could be built: the records that were fetched, with what holds of them.
  pub record IsBuilt (info : RepositoryInfo) (s s' : Repository R) (b : Bus) : Type 0 where
    pub device_pdrs : Map Bytes
    pub fetched : (fetch_records lib.codec tid info b).1 ≡ some device_pdrs
    pub kept : IsKept info.largest_record_size device_pdrs
    pub one_locator : locators (lib.in_order device_pdrs) ≤ 1
    pub all_records : s'.pdr_repo ≡ add_all (lib.in_order device_pdrs) s.pdr_repo
    pub container : s'.container_id ≡ container_of (lib.in_order device_pdrs) s.container_id
    pub announced : lib.count s'.pdr_repo ≡ info.record_count

  all_added-true :
      (n : ℕ) (x : Repository R × Bool)
      → x.1 ≡ true
      → all_added lib tid n x ≡ (x.0, lib.count x.0.pdr_repo == n)
  all_added-true n (s, true) h = refl
  all_added-true n (s, false) h = cc

  all_added-succeeds :
      (n : ℕ) (x : Repository R × Bool) → (all_added lib tid n x).1 ≡ true → x.1 ≡ true
  all_added-succeeds n (s, true) h = refl
  all_added-succeeds n (s, false) h = h

  constructed :
      (info : RepositoryInfo) (s : Repository R) (b : Bus) (m : Map Bytes)
      → (fetch_records lib.codec tid info b).1 ≡ some m
      → (construct_pdr_repo lib tid info s b).1
        ≡ all_added lib tid info.record_count (add_records lib tid (lib.in_order m) false s)
  unfolding construct_pdr_repo
  constructed info s b m h = rw (h, construct_pdr_repo) refl

  unfetched :
      (info : RepositoryInfo) (s : Repository R) (b : Bus)
      → (fetch_records lib.codec tid info b).1 ≡ none
      → (construct_pdr_repo lib tid info s b).1.1 ≡ false
  unfolding construct_pdr_repo
  unfetched info s b h = rw (h, construct_pdr_repo) refl

  built :
      (info : RepositoryInfo) (s : Repository R) (b : Bus) (m : Map Bytes)
      → (fetch_records lib.codec tid info b).1 ≡ some m
      → (construct_pdr_repo lib tid info s b).1.1 ≡ true
      → IsBuilt info s (construct_pdr_repo lib tid info s b).1.0 b
  built info s b m f h =
      let x = add_records lib tid (lib.in_order m) false s in
      let e = constructed info s b m f in
      let t : x.1 ≡ true = all_added-succeeds info.record_count x (ap (λ r. r.1) (sym e) ∙ h) in
      let g = e ∙ all_added-true info.record_count x t in
      let (a, c, d) = add_records-true (lib.in_order m) false s t in
      record {
        device_pdrs = m;
        fetched = f;
        kept = fetch_records-IsKept lib.codec tid info b m f;
        one_locator = omega (arith, a);
        all_records = ap (λ r. r.0.pdr_repo) g ∙ c;
        container = ap (λ r. r.0.container_id) g ∙ d;
        announced =
            ap (λ r. lib.count r.0.pdr_repo) g
            ∙ ==→eq (lib.count x.0.pdr_repo) info.record_count (ap (λ r. r.1) (sym g) ∙ h);
      }

  rebuilt :
      (info : RepositoryInfo) (s : Repository R) (b : Bus)
      → IsBuilt info s (construct_pdr_repo lib tid info s b).1.0 b
      → (construct_pdr_repo lib tid info s b).1.1 ≡ true
  rebuilt info s b i =
      let l = lib.in_order i.device_pdrs in
      let x = add_records lib tid l false s in
      let t = add_records-one l false s (omega (arith, i.one_locator)) in
      let g = constructed info s b i.device_pdrs i.fetched ∙ all_added-true info.record_count x t in
      let n : lib.count x.0.pdr_repo ≡ info.record_count =
        ap (λ r. lib.count r.0.pdr_repo) (sym g) ∙ i.announced in
      ap (λ r. r.1) g ∙ (==_iff (lib.count x.0.pdr_repo) info.record_count).1 n

  -- constructPDRRepo succeeds exactly when the records could be fetched, each within the largest
  -- size and under the handle in its header, at most one of them is a valid terminus locator, and
  -- the repository has as many records as were announced; it then has all that were fetched, the
  -- locator with the TID of the terminus, and the container id is the locator's if there is one.
  pub construct_pdr_repo-IsBuilt :
      (info : RepositoryInfo) (s : Repository R) (b : Bus)
      → let r = construct_pdr_repo lib tid info s b in (r.1.1 ≡ true) ↔ IsBuilt info s r.1.0 b
  construct_pdr_repo-IsBuilt info s b = (
    λ h. elim (Option-cases (fetch_records lib.codec tid info b).1) [
      | inl n ↦ cc (unfetched info s b n)
      | inr (m, f) ↦ built info s b m f h
    ],
    rebuilt info s b,
  )
