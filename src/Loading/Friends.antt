-- ===== src/Loading/Friends.antt =====
-- scull of LinuxDeviceDrivers3Ed, loaded and unloaded with its friends: what is left.
use leipocode.Base.{
  ℕ, ◌≡◌, ◌≢◌, refl, ap, ◌∙◌, Bool, true, false, ◌&&◌, none, some, List, [], ◌∷◌, ◌++◌, append-nil,
  ne→==,
}
use leipocode.Loading.{
  Owner, own, pipes, access, Resource, region, memory, cdev, Action, gives, each_dev,
}
use leipocode.Loading.Scull.{ScullLoad, n_adevs}
use leipocode.Loading.Balance.{
  after, after-append, spares, spares-append, gives_top, cdevs, cdevs-given_back, all_spared,
  after-all_spared, cdevs-all_spared, foreign, same,
}

-- A load in which the kernel refuses nothing.
abbrev pub smooth : (major dynamic minor devs nr_pipes : ℕ) → ScullLoad
smooth major dynamic minor devs nr_pipes = record {
  main = record {
    major = major;
    devs = devs;
    refused = none;
    dynamic = dynamic;
    allocated = true;
    cached = true;
  };
  minor = minor;
  nr_pipes = nr_pipes;
  pipes_refused = false;
  pipes_allocated = true;
  access_refused = false;
  added = λ i. true;
}

both_true : (a b : Bool) → a ≡ true → b ≡ true → (a && b) ≡ true
both_true true b h k = k
both_true false b h k = h

abbrev pub gone : Owner → (devs : ℕ) → List Action
gone o = each_dev (λ i. gives (cdev o i) ∷ [])

-- The resources of the pipes and of the devices with access control.
abbrev pub of_pipes : (nr : ℕ) → Resource → List Resource
of_pipes nr r = cdevs pipes nr (memory pipes ∷ r ∷ [])

abbrev pub of_access : Resource → List Resource
of_access r = cdevs access n_adevs (r ∷ [])

-- What is given back spares the resources of a friend when it spares each of them.
of_pipes-all_spared :
    (nr : ℕ) (r : Resource) (actions : List Action)
    → ((i : ℕ) → spares (cdev pipes i) actions ≡ true)
    → spares (memory pipes) actions ≡ true
    → spares r actions ≡ true
    → all_spared (of_pipes nr r) actions ≡ true
of_pipes-all_spared nr r actions each m n =
    cdevs-all_spared pipes nr (memory pipes ∷ r ∷ []) actions each
      (both_true _ _ m (both_true _ _ n refl))

of_access-all_spared :
    (r : Resource) (actions : List Action)
    → ((i : ℕ) → spares (cdev access i) actions ≡ true)
    → spares r actions ≡ true
    → all_spared (of_access r) actions ≡ true
of_access-all_spared r actions each n =
    cdevs-all_spared access n_adevs (r ∷ []) actions each (both_true _ _ n refl)

pub regions_differ : (a b c d : ℕ) → a ≢ c → same (region a b) (region c d) ≡ false
regions_differ a b c d h = rw (ne→== a c h) refl

-- The devices of an owner, and their memory, are not the resource.
spared_by :
    (o : Owner) (devs : ℕ) (x : Resource)
    → ((i : ℕ) → same (cdev o i) x ≡ false)
    → same (memory o) x ≡ false
    → spares x (gone o devs ++ gives (memory o) ∷ []) ≡ true
spared_by o devs x c m =
    spares-append x (gone o devs) (gives (memory o) ∷ []) (foreign o x devs c) (rw m refl)

-- The driver gives back its own devices, then its numbers, then each friend what it has.
pub own_first :
    (devs : ℕ) (r p a : Resource) (nr : ℕ)
    → ((i : ℕ) → same (cdev own i) p ≡ false)
    → ((i : ℕ) → same (cdev own i) a ≡ false)
    → same (memory own) p ≡ false
    → same (memory own) a ≡ false
    → after
        (gone own devs ++ gives (memory own) ∷ [])
        (of_access a ++ (of_pipes nr p ++ cdevs own devs (memory own ∷ r ∷ [])))
      ≡ some (of_access a ++ (of_pipes nr p ++ r ∷ []))
own_first devs r p a nr cp ca mp ma =
    let actions = gone own devs ++ gives (memory own) ∷ [] in
    let spare = spared_by own devs in
    after-all_spared (of_access a) actions _ _
      (of_access-all_spared a actions (λ i. spare (cdev access i) (λ j. refl) refl) (spare a ca ma))
      (after-all_spared (of_pipes nr p) actions _ _
        (of_pipes-all_spared nr p actions (λ i. spare (cdev pipes i) (λ j. refl) refl)
          (spare (memory pipes) (λ j. refl) refl) (spare p cp mp))
        (after-append (gone own devs) (gives (memory own) ∷ [])
          (cdevs own devs (memory own ∷ r ∷ [])) (memory own ∷ r ∷ [])
          (cdevs-given_back own devs (memory own ∷ r ∷ []))))

pub numbers_next :
    (r p a : Resource) (nr : ℕ)
    → same r p ≡ false
    → same r a ≡ false
    → ((i : ℕ) → same r (cdev access i) ≡ false)
    → ((i : ℕ) → same r (cdev pipes i) ≡ false)
    → same r (memory pipes) ≡ false
    → after (gives r ∷ []) (of_access a ++ (of_pipes nr p ++ r ∷ []))
      ≡ some (of_access a ++ of_pipes nr p)
numbers_next r p a nr rp ra ca cp m =
    let actions = gives r ∷ [] in
    after-all_spared (of_access a) actions _ _
      (of_access-all_spared a actions (λ i. rw (ca i) refl) (rw ra refl))
      (after-all_spared (of_pipes nr p) actions _ _
        (of_pipes-all_spared nr p actions (λ i. rw (cp i) refl) (rw m refl) (rw rp refl))
        (gives_top r [] []))
    ∙ ap (λ l. some (of_access a ++ l)) (append-nil (of_pipes nr p))

pub pipes_next :
    (p a : Resource) (nr : ℕ)
    → same p a ≡ false
    → ((i : ℕ) → same (cdev pipes i) a ≡ false)
    → same (memory pipes) a ≡ false
    → ((i : ℕ) → same p (cdev access i) ≡ false)
    → after (gone pipes nr ++ gives (memory pipes) ∷ gives p ∷ []) (of_access a ++ of_pipes nr p)
      ≡ some (of_access a)
pipes_next p a nr pa ca ma pc =
    let actions = gone pipes nr ++ gives (memory pipes) ∷ gives p ∷ [] in
    after-all_spared (of_access a) actions _ _
      (of_access-all_spared a actions
        (λ i.
          spares-append (cdev access i) (gone pipes nr) (gives (memory pipes) ∷ gives p ∷ [])
            (foreign pipes (cdev access i) nr (λ j. refl)) (rw (pc i) refl))
        (spares-append a (gone pipes nr) (gives (memory pipes) ∷ gives p ∷ [])
          (foreign pipes a nr ca) (rw (ma, pa) refl)))
      (after-append (gone pipes nr) (gives (memory pipes) ∷ gives p ∷ []) (of_pipes nr p)
          (memory pipes ∷ p ∷ []) (cdevs-given_back pipes nr (memory pipes ∷ p ∷ []))
        ∙ gives_top p [] [])
