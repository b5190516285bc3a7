-- ===== src/Json.antt =====
-- JSON values, as far as the program walks them: an object is its members in order, and a number, a
-- truth value or null is its text.
use gpu_relay.Common.{String, str_eq, Bool, false, ◌||◌, Option, none, some, if◌then◌else◌}

mutual
  pub data Json : Type 0 where
    scalar : String → Json
    text : String → Json
    arr : Items → Json
    obj : Members → Json

  pub data Items : Type 0 where
    nil : Items
    cons : Json → Items → Items

  pub data Members : Type 0 where
    end : Members
    member : String → Json → Members → Members

-- `d.get(key)`
unfoldable pub get_member : String → Members → Option Json
get_member key end = none
get_member key (member k v rest) = if str_eq k key then some v else get_member key rest

-- `d[key] = value`
unfoldable pub set_member : String → Json → Members → Members
set_member key value end = member key value end
set_member key value (member k v rest) =
    let later = set_member key value rest in
    if str_eq k key then member k value rest else member k v later

-- `d.pop(key, None)`
unfoldable pub pop_member : String → Members → Members
pop_member key end = end
pop_member key (member k v rest) =
    let later = pop_member key rest in if str_eq k key then later else member k v later

-- `text in items`
unfoldable pub has_text : String → Items → Bool
has_text t nil = false
has_text t (cons (text u) xs) = str_eq u t || has_text t xs
has_text t (cons _ xs) = has_text t xs
