-- ===== src/Sysfs/Scheduler.antt =====
-- The active scheduler of sysfs.rs: the name in brackets among the names of an attribute.
use zoned.Base.{◌+◌, ◌-◌, ◌<◌, ◌≡◌, refl, ap, sym, ◌∙◌, String, some, arith, lt→ltb}
use zoned.Base.Text.{push}
use zoned.Base.Text.Edit.{
  size, size-push, find_char, find_char-push, Lacks, Lacks-push, push_assoc, take_text,
  take_text-push, drop_text, drop_text-push,
}
use zoned.Sysfs.{between, parse_active_scheduler}

-- The name in the first brackets is found, if it is not empty: no bracket stands before it, and no
-- closing bracket in it. Anything may follow.
pub parse_active_scheduler-brackets :
    (before name after : String)
    → Lacks 91 before
    → Lacks 93 before
    → Lacks 93 name
    → 0 < size name
    → parse_active_scheduler (push before (push "[" (push name (push "]" after)))) ≡ some name
unfolding parse_active_scheduler between
parse_active_scheduler-brackets before name after h k l m =
    rw
      (
        opening,
        closing,
        lt→ltb (size before + 1) (size (push before (push "[" name))) behind,
        inside,
      )
      (ap some cut)
  where
    behind : size before + 1 < size (push before (push "[" name))
    behind = omega (arith, size-push before (push "[" name))

    inside : size (push before (push "[" name)) - (size before + 1) ≡ size name
    inside = omega (arith, size-push before (push "[" name))

    opening :
        find_char 91 (push before (push "[" (push name (push "]" after)))) ≡ some (size before)
    opening = find_char-push 91 before _ _ h refl

    closing :
        find_char 93 (push before (push "[" (push name (push "]" after))))
        ≡ some (size (push before (push "[" name)))
    closing =
        ap (find_char 93) (sym (push_assoc before (push "[" name) (push "]" after)))
        ∙ find_char-push 93 (push before (push "[" name)) _ after
            (Lacks-push 93 before (push "[" name) k (refl, l)) refl

    cut :
        take_text
          (size name)
          (drop_text (size before + 1) (push before (push "[" (push name (push "]" after)))))
        ≡ name
    cut =
        ap
          (λ n.
            take_text (size name)
              (drop_text n (push before (push "[" (push name (push "]" after))))))
          (sym (size-push before "["))
        ∙ ap (λ t. take_text (size name) (drop_text (size (push before "[")) t))
            (sym (push_assoc before "[" (push name (push "]" after))))
        ∙ ap (take_text (size name)) (drop_text-push (push before "[") (push name (push "]" after)))
        ∙ take_text-push name (push "]" after)
