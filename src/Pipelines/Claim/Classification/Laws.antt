-- ===== src/Pipelines/Claim/Classification/Laws.antt =====
-- An answer is accepted exactly when it labels every allowed identifier once, and no other.
use marx_engels_insight_matc.Base.{
  ◌≡◌, ◌↔◌, refl, ap, sym, ◌∙◌, Text, text_eq_iff, is_some, all, append_nil, append_cons, true,
  false, Option, none, some, List, [], ◌∷◌, ◌++◌, map, arith, inl, inr, Option-cases,
}
use mathlib.Core.Path.{subst}
use marx_engels_insight_matc.Base.Dict.{Dict, get, put, keys, contains-keys, Distinct-keys-put}
use marx_engels_insight_matc.Base.Unique.{contains, Distinct, contains-append}
use marx_engels_insight_matc.Contracts.{SupportLabel, support_label_of}
use marx_engels_insight_matc.Pipelines.Claim.Classification.{
  Answer, Item, Labels, raw_items, read_item, parse_loop, same_set, parse_classifications,
}

-- What an item says, by itself: an identifier and a label of the enumeration.
abbrev label_entry : Text → Option SupportLabel → Option (Text × SupportLabel)
label_entry i none = none
label_entry i (some label) = some (i, label)

abbrev entry_of : Option (Text × Text) → Option (Text × SupportLabel)
entry_of none = none
entry_of (some (i, raw)) = label_entry i (support_label_of raw)

abbrev pub read_entry : Item → Option (Text × SupportLabel)
read_entry item = entry_of (read_item item)

put-new :
    (k : Text) (v : SupportLabel) (d : Labels)
    → is_some (get k d) ≡ false
    → put k v d ≡ d ++ (k, v) ∷ []
unfolding get put
put-new k v [] h = refl
put-new k v ((j, w) ∷ d) h = ground (arith, put-new k v d)

keys-append : (d e : Labels) → keys (d ++ e) ≡ keys d ++ keys e
keys-append [] e = refl
keys-append ((k, v) ∷ d) e = ap (◌∷◌ k) (keys-append d e)

-- One step of the loop that goes on.
record Step (allowed : List Text) (old : Labels) (item : Item) (items : List Item)
    (o : Option Labels) : Type 0 where
  name : Text
  label : SupportLabel
  read : read_entry item ≡ some (name, label)
  permitted : contains name allowed ≡ true
  new : is_some (get name old) ≡ false
  later : parse_loop allowed (put name label old) items ≡ o

Step-of :
    (allowed : List Text) (old : Labels) (item : Item) (items : List Item) (labels : Labels)
    → parse_loop allowed old (item ∷ items) ≡ some labels
    → Step allowed old item items (some labels)
unfolding parse_loop
Step-of allowed old item items labels h = elim (Option-cases (read_item item)) [
  | inl n ↦ absurd (ground (arith, n, h))
  | inr ((i, raw), y) ↦ elim (Option-cases (support_label_of raw)) [
    | inl n ↦ absurd (ground (arith, y, n, h))
    | inr (label, z) ↦ record {
      name = i;
      label = label;
      read = ground (arith, y, z);
      permitted = ground (arith, y, z, h);
      new = ground (arith, y, z, h);
      later = ground (arith, y, z, h);
    }
  ]
]

of_Step :
    (allowed : List Text) (old : Labels) (item : Item) (items : List Item) (o : Option Labels)
    → Step allowed old item items o
    → parse_loop allowed old (item ∷ items) ≡ o
unfolding parse_loop
of_Step allowed old item items o s = elim (Option-cases (read_item item)) [
  | inl n ↦ absurd (ground (arith, n, s.read))
  | inr ((i, raw), y) ↦ elim (Option-cases (support_label_of raw)) [
    | inl n ↦ absurd (ground (arith, y, n, s.read))
    | inr (label, z) ↦ ground (arith, y, z, s.read, s.permitted, s.new, s.later)
  ]
]

-- What the loop accepts, and what it then returns.
record Accepted (allowed : List Text) (old : Labels) (items : List Item) (labels : Labels)
    : Type 0 where
  new : Labels
  appended : labels ≡ old ++ new
  read : map read_entry items ≡ map some new
  distinct : Distinct (keys labels)
  permitted : all (λ i. contains i allowed) (keys new) ≡ true

parse_loop-Accepted :
    (allowed : List Text) (old : Labels) (items : List Item) (labels : Labels)
    → Distinct (keys old)
    → parse_loop allowed old items ≡ some labels
    → Accepted allowed old items labels
unfolding parse_loop
parse_loop-Accepted allowed old [] labels d h =
    let e : old ≡ labels = ground (arith, h) in
    record {
      new = [];
      appended = sym e ∙ sym (append_nil old);
      read = refl;
      distinct = subst (λ x. Distinct (keys x)) e d;
      permitted = refl;
    }
parse_loop-Accepted allowed old (item ∷ items) labels d h =
    let s = Step-of allowed old item items labels h in
    let a =
      parse_loop-Accepted allowed (put s.name s.label old) items labels
        (Distinct-keys-put s.name s.label old d) s.later in
    record {
      new = (s.name, s.label) ∷ a.new;
      appended =
          a.appended
          ∙ (ap (λ x. x ++ a.new) (put-new s.name s.label old s.new)
              ∙ append_cons old (s.name, s.label) a.new);
      read = ground (arith, s.read, a.read);
      distinct = a.distinct;
      permitted = ground (arith, s.permitted, a.permitted);
    }

Distinct-middle :
    (xs : List Text) (y : Text) (ys : List Text) → Distinct (xs ++ y ∷ ys) → contains y xs ≡ false
unfolding contains
Distinct-middle [] y ys d = refl
Distinct-middle (x ∷ xs) y ys d = ground (
  arith,
  d.0,
  text_eq_iff x y,
  text_eq_iff y x,
  contains-append x xs (y ∷ ys),
  Distinct-middle xs y ys d.1,
)

some_cons :
    {A : Type 0} {x : Option A} {xs : List (Option A)} (y : A) (ys : List A)
    → ◌≡◌ {A = List (Option A)} (x ∷ xs) (map some (y ∷ ys))
    → (x ≡ some y) × (xs ≡ map some ys)
some_cons y ys h = (ground (arith, h), ground (arith, h))

parse_loop-accepts :
    (allowed : List Text) (old new : Labels) (items : List Item)
    → map read_entry items ≡ map some new
    → Distinct (keys old ++ keys new)
    → all (λ i. contains i allowed) (keys new) ≡ true
    → parse_loop allowed old items ≡ some (old ++ new)
unfolding parse_loop
parse_loop-accepts allowed old [] [] r d p = ap some (sym (append_nil old))
parse_loop-accepts allowed old (e ∷ new) [] r d p = absurd (ground (arith, r))
parse_loop-accepts allowed old [] (item ∷ items) r d p = absurd (ground (arith, r))
parse_loop-accepts allowed old ((i, label) ∷ new) (item ∷ items) r d p =
    let (here, later) = some_cons (i, label) new r in
    let fresh : is_some (get i old) ≡ false =
      sym (contains-keys i old) ∙ Distinct-middle (keys old) i (keys new) d in
    let moved : keys (put i label old) ++ keys new ≡ keys old ++ i ∷ keys new =
      ap (λ x. keys x ++ keys new) (put-new i label old fresh)
      ∙ (ap (λ x. x ++ keys new) (keys-append old ((i, label) ∷ []))
          ∙ append_cons (keys old) i (keys new)) in
    of_Step allowed old item items (some (old ++ (i, label) ∷ new)) (record {
      name = i;
      label = label;
      read = here;
      permitted = ground (arith, p);
      new = fresh;
      later =
          parse_loop-accepts allowed (put i label old) new items later
            (subst Distinct (sym moved) d) (ground (arith, p))
          ∙ ap some
              (ap (λ x. x ++ new) (put-new i label old fresh) ∙ append_cons old (i, label) new);
    })

-- What an accepted answer is: each item says an identifier and a label, no identifier is said
-- twice, and those that are said are the allowed ones.
pub record IsClassification (payload : Dict Answer) (allowed : List Text) (labels : Labels)
    : Type 0 where
  pub items : List Item
  pub array : raw_items payload ≡ some items
  pub entries : map read_entry items ≡ map some labels
  pub distinct : Distinct (keys labels)
  pub same : same_set (keys labels) allowed ≡ true

-- The answer is accepted with these labels exactly when it is a list whose items are the labels,
-- in order, no identifier occurs twice, and the identifiers are those that were asked for.
-- Otherwise the whole answer is refused.
pub parse_classifications_iff :
    (payload : Dict Answer) (allowed : List Text) (labels : Labels)
    → (parse_classifications payload allowed ≡ some labels)
      ↔ IsClassification payload allowed labels
unfolding parse_classifications
parse_classifications_iff payload allowed labels = (accepted, accepts)
  where
    accepted :
        parse_classifications payload allowed ≡ some labels
        → IsClassification payload allowed labels
    accepted h = elim (Option-cases (raw_items payload)) [
      | inl n ↦ absurd (ground (arith, n, h))
      | inr (items, y) ↦ elim (Option-cases (parse_loop allowed [] items)) [
        | inl n ↦ absurd (ground (arith, y, n, h))
        | inr (got, z) ↦
            let e : got ≡ labels = ground (arith, y, z, h) in
            let a = parse_loop-Accepted allowed [] items got tt z in
            record {
              items = items;
              array = y;
              entries = a.read ∙ ap (map some) (sym a.appended ∙ e);
              distinct = subst (λ x. Distinct (keys x)) e a.distinct;
              same = ground (arith, y, z, h, e);
            }
      ]
    ]

    accepts :
        IsClassification payload allowed labels
        → parse_classifications payload allowed ≡ some labels
    accepts c =
        let run : parse_loop allowed [] c.items ≡ some labels =
          parse_loop-accepts allowed [] labels c.items c.entries c.distinct
            (ground (arith, c.same)) in
        ground (arith, c.array, run, c.same)
