-- ===== src/NodeInfo/Invariant.antt =====
-- The books of a node: what there is, what is requested, and what is allocatable.
use orin_device_system.Common.{
  ℤ, ℤ_discrete, [], Option, none, some, Bool, true, false, ◌&&◌, ◌||◌, not, Text_discrete, has_key,
  lookup, insert, lookup-insert, Distinct, insert-Distinct, Result-cases, ok, is_ok, ◌≡◌, arith,
  ite, Option-cases, Bool-cases, inl, inr, ap, sym, ◌∙◌, if◌then◌else◌,
}
use mathlib.Core.Option
use orin_device_system.Common.Sets.{IntSets}
use orin_device_system.Names.{parse_int}
use orin_device_system.Topo.{OrinDetails, BoardDetails, add_board, difference_from_superset, board}
use orin_device_system.Topo.Views.{
  has_orin, has_key-add_orins, has_key-add_board, has_orin-add_board,
}
use orin_device_system.Topo.Difference.{Covers, difference-has_orin, difference-Covers_iff}
use orin_device_system.Topo.Distinctness.{add_board-Distinct, difference-Distinct}
use orin_device_system.Pods.{Pod, board_annotation, build_request_orin_set}
use orin_device_system.NodeInfo.{
  NodeInfo, NodeInfoError, taken_over, request_on, release, delete_pod, reserve, reserve_anew,
  add_pod,
}

-- Requests lie within the total, what is allocatable is the rest, and it shares no map of a board
-- with requests.
pub record Books (total requested allocatable : BoardDetails) (shares : ℤ → Bool) : Type 0 where
  pub requested_distinct : Distinct ℤ_discrete requested
  pub allocatable_distinct : Distinct ℤ_discrete allocatable
  pub covered : Covers total requested
  pub same_boards : (b : ℤ) → has_key ℤ_discrete b allocatable ≡ has_key ℤ_discrete b total
  pub apart : (b : ℤ) → has_key ℤ_discrete b requested ≡ true → shares b ≡ false
  pub left :
      (b o : ℤ) → has_orin allocatable b o ≡ (has_orin total b o && not (has_orin requested b o))

abbrev pub IsConsistent : NodeInfo → Type 0
IsConsistent ni = Books ni.total ni.requested ni.allocatable ni.shares_total

module _ ⦃S : IntSets⦄ where
  -- The pod asks for orin `o` on board `j`, where it is bound to board `b`.
  abbrev pub asks : Pod → ℤ → ℤ → ℤ → Bool
  asks pod b j o = ite (ℤ_discrete j b) (S.has o (build_request_orin_set pod)) false

  pub has_key-request_on :
      (b : ℤ) (pod : Pod) (od : OrinDetails) (o : ℤ)
      → has_key ℤ_discrete o (request_on b pod od)
        ≡ (S.has o (build_request_orin_set pod) || has_key ℤ_discrete o od)
  unfolding request_on
  has_key-request_on b pod od o =
      let wanted = build_request_orin_set pod in
      ground
        (arith, has_key-add_orins b (S.unsorted_list wanted) o od, S.elem-unsorted_list o wanted)

  -- The topology that `deletePod` takes off: one board with the pod's orins.
  abbrev pub asked_details : ℤ → Pod → BoardDetails
  asked_details b pod = add_board b (request_on b pod []) []

  pub has_orin-asked_details :
      (b : ℤ) (pod : Pod) (j o : ℤ) → has_orin (asked_details b pod) j o ≡ asks pod b j o
  unfolding lookup
  has_orin-asked_details b pod j o =
      ground
        (arith, has_orin-add_board b j o (request_on b pod []) [], has_key-request_on b pod [] o)

  pub has_key-asked_details :
      (b : ℤ) (pod : Pod) (j : ℤ)
      → has_key ℤ_discrete j (asked_details b pod) ≡ ite (ℤ_discrete j b) true false
  unfolding lookup
  has_key-asked_details b pod j = ground (arith, has_key-add_board b j (request_on b pod []) [])

  pub asked_details-Distinct : (b : ℤ) (pod : Pod) → Distinct ℤ_discrete (asked_details b pod)
  asked_details-Distinct b pod = add_board-Distinct b (request_on b pod []) [] tt

  -- `Requested` after `addPod` has put the pod's orins there.
  abbrev pub requested_with : BoardDetails → ℤ → Pod → BoardDetails
  requested_with requested b pod =
      insert ℤ_discrete b (request_on b pod (board requested b)) requested

  pub has_orin-requested_with :
      (requested : BoardDetails) (b : ℤ) (pod : Pod) (j o : ℤ)
      → has_orin (requested_with requested b pod) j o ≡ (asks pod b j o || has_orin requested j o)
  has_orin-requested_with requested b pod j o = ground (
    arith,
    lookup-insert ℤ_discrete b j (request_on b pod (board requested b)) requested,
    has_key-request_on b pod (board requested b) o,
  )

  released-Books :
      (total requested allocatable d : BoardDetails) (shares : ℤ → Bool) (b : ℤ) (pod : Pod)
      → Books total requested allocatable shares
      → difference_from_superset requested (asked_details b pod) ≡ ok d
      → Books
          (if shares b then add_board b (request_on b pod []) total else total)
          d
          (add_board b (request_on b pod []) allocatable)
          shares
  released-Books total requested allocatable d shares b pod c h =
      let asked = asked_details b pod in
      let (boards, orins) =
        difference-has_orin requested asked {d = d} (asked_details-Distinct b pod) h in
      let within =
        (difference-Covers_iff requested asked (asked_details-Distinct b pod)).0 (ap is_ok h) in
      let asked_there : has_key ℤ_discrete b requested ≡ true =
        within.boards b (ground (arith, has_key-asked_details b pod b)) in
      rw (c.apart b asked_there) (record {
        requested_distinct = difference-Distinct requested asked {d = d} h;
        apart = λ j e. c.apart j (sym (boards j) ∙ e);
        allocatable_distinct =
            add_board-Distinct b (request_on b pod []) allocatable c.allocatable_distinct;
        covered = record {
          boards = λ j e. ground (arith, c.covered.boards j, boards j);
          orins = λ j o e. ground (arith, c.covered.orins j o, orins j o);
        };
        same_boards = λ j. ground (
          arith,
          has_key-add_board b j (request_on b pod []) allocatable,
          c.same_boards j,
          c.covered.boards j,
          within.boards j,
          has_key-asked_details b pod j,
        );
        left = λ j o. ground (
          arith,
          has_orin-add_board b j o (request_on b pod []) allocatable,
          has_orin-add_board b j o (request_on b pod []) [],
          c.left j o,
          c.covered.orins j o,
          within.orins j o,
          orins j o,
          has_orin-asked_details b pod j o,
          has_key-request_on b pod [] o,
        );
      })

  pub reserved-Books :
      (total requested d : BoardDetails)
      → Distinct ℤ_discrete requested
      → difference_from_superset total requested ≡ ok d
      → Books total requested d (taken_over total requested)
  reserved-Books total requested d n h =
      let (boards, orins) = difference-has_orin total requested {d = d} n h in
      record {
        requested_distinct = n;
        allocatable_distinct = difference-Distinct total requested {d = d} h;
        covered = (difference-Covers_iff total requested n).0 (ap is_ok h);
        same_boards = boards;
        apart = λ b e. ground (arith, e);
        left = orins;
      }

  release-IsConsistent :
      (ni : NodeInfo) (pod : Pod) (b : ℤ) → IsConsistent ni → IsConsistent (release ni pod b).0
  unfolding release
  release-IsConsistent ni pod b c =
      elim (Result-cases (difference_from_superset ni.requested (asked_details b pod))) [
        | inr (e, h) ↦ rw (h, release) c
        | inl (d, h) ↦
            rw (h, release)
              (released-Books ni.total ni.requested ni.allocatable d ni.shares_total b pod c h)
      ]

  -- `deletePod` of a node with consistent books leaves consistent books, whether it returns an
  -- error or not.
  pub delete_pod-IsConsistent :
      (ni : NodeInfo) (pod : Pod) → IsConsistent ni → IsConsistent (delete_pod ni pod).0
  unfolding delete_pod
  delete_pod-IsConsistent ni pod c = elim (Option-cases (board_annotation pod)) [
    | inl e ↦ rw (e, delete_pod) c
    | inr (s, e) ↦
        rw (e, delete_pod)
          (elim (Bool-cases (has_key Text_discrete pod.uid ni.pods)) [
            | inr h ↦ rw h c
            | inl h ↦ rw h (elim (Option-cases (parse_int s)) [
              | inl p ↦ rw (p, delete_pod) c
              | inr (b, p) ↦ rw (p, delete_pod) (release-IsConsistent ni pod b c)
            ])
          ])
  ]

  reserve-IsConsistent :
      (ni : NodeInfo) (pod : Pod) (b : ℤ)
      → IsConsistent ni
      → (reserve ni pod b).1 ≡ none
      → IsConsistent (reserve ni pod b).0
  unfolding reserve
  reserve-IsConsistent ni pod b c ok_end =
      let requested = requested_with ni.requested b pod in
      let distinct =
        insert-Distinct ℤ_discrete b (request_on b pod (board ni.requested b)) ni.requested
          c.requested_distinct in
      elim (Result-cases (difference_from_superset ni.total requested)) [
        | inr (e, h) ↦ absurd (Option.some-ne-none _ (rw (h, reserve) at ok_end))
        | inl (d, h) ↦ rw (h, reserve) (reserved-Books ni.total requested d distinct h)
      ]

  reserve_anew-IsConsistent :
      (r : NodeInfo × Option NodeInfoError) (pod : Pod) (b : ℤ)
      → IsConsistent r.0
      → (reserve_anew r pod b).1 ≡ none
      → IsConsistent (reserve_anew r pod b).0
  unfolding reserve_anew
  reserve_anew-IsConsistent (ni, some e) pod b c ok_end = c
  reserve_anew-IsConsistent (ni, none) pod b c ok_end = reserve-IsConsistent ni pod b c ok_end

  -- `addPod` of a node with consistent books, if it returns no error, leaves consistent books.
  pub add_pod-IsConsistent :
      (ni : NodeInfo) (pod : Pod)
      → IsConsistent ni
      → (add_pod ni pod).1 ≡ none
      → IsConsistent (add_pod ni pod).0
  unfolding add_pod
  add_pod-IsConsistent ni pod c ok_end = elim (Option-cases (board_annotation pod)) [
    | inl e ↦ rw (e, add_pod) c
    | inr (s, e) ↦ elim (Option-cases (parse_int s)) [
      | inl p ↦ rw (e, add_pod) (rw (p, add_pod) c)
      | inr (b, p) ↦ elim (Bool-cases (has_key Text_discrete pod.uid ni.pods)) [
        | inr h ↦
            rw (e, add_pod)
              (rw (p, add_pod)
                (rw h (
                  reserve-IsConsistent ni pod b c
                    (rw h at (rw (p, add_pod) at (rw (e, add_pod) at ok_end))))))
        | inl h ↦
            rw (e, add_pod)
              (rw (p, add_pod)
                (rw h (
                  reserve_anew-IsConsistent (delete_pod ni pod) pod b
                    (delete_pod-IsConsistent ni pod c)
                    (rw h at (rw (p, add_pod) at (rw (e, add_pod) at ok_end))))))
      ]
    ]
  ]
