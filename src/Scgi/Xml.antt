-- ===== src/Scgi/Xml.antt =====
-- `xml_visitor` of src/scgi/xml_visitor.cpp. The browsing client calls `visit` on the objects it may
-- read, which only collects the nodes; the destructor then writes the document. How an ostream prints
-- an address is a parameter.
use de_co_f.Base.{ℕ, ◌+◌, none, some, List, [], ◌∷◌, ◌++◌, ◌==◌, if◌then◌else◌, Bytes, codes}
use de_co_f.Types.Userlevel.{internal, service, maintenance, normal, readonly}
use de_co_f.Tree.{is_node, Store}
use de_co_f.Access.{is_writable}
use de_co_f.Visitor.{
  TypeTag, visit_object, visit_event, visit_node, visit_parameter, accept, tag_name, indentation,
  decrement_indentation,
}

-- `userlevel_name`.
unfoldable pub userlevel_name : ℕ → Bytes
userlevel_name ul =
    if ul == internal
    then codes "internal"
    else if ul == service
    then codes "service"
    else if ul == maintenance
    then codes "maintenance"
    else if ul == normal
    then codes "normal"
    else if ul == readonly
    then codes "readonly"
    else codes "invalid"

abbrev quote : Bytes
quote = 34 ∷ []

abbrev newline : Bytes
newline = 10 ∷ []

-- ` name="value"`.
abbrev attribute : Bytes → Bytes → Bytes
attribute name value = name ++ (codes "=" ++ (quote ++ (value ++ quote)))

abbrev concat : List Bytes → Bytes
concat [] = []
concat (s ∷ ss) = s ++ concat ss

-- The visitor: `first_pass_` ends with the browsing; `node_stack_` has its top first.
unfoldable pub first_pass : (ℕ → TypeTag) → Store → List ℕ → List ℕ → List ℕ
unfolding accept
first_pass tag tree [] stack = stack
first_pass tag tree (a ∷ more) stack =
    let top = a ∷ stack in
    first_pass tag tree more (elim (accept (tree a).kind (tag a)) [ visit_node ↦ top | _ ↦ stack ])

module _ (print_address : ℕ → Bytes) (tag : ℕ → TypeTag) (tree : Store) where
  -- `node_type_str`.
  unfoldable pub node_type_str : ℕ → Bytes
  node_type_str a = (tree a).name ++ print_address a

  -- `write_param` in the second pass, at an indentation level.
  unfoldable pub write_param : ℕ → ℕ → Bytes → Bytes
  unfolding userlevel_name
  write_param level a type_str =
      let writable = is_writable (tree a).kind in
      indentation level
      ++ (attribute (codes "<param name") (tree a).name
          ++ (codes " "
              ++ (attribute (codes "type") type_str
                  ++ ((if is_node (tree a).kind
                        then []
                        else attribute (codes " mode")
                            (if writable then codes "readwrite" else codes "readonly"))
                      ++ ((if writable
                            then attribute (codes " readlevel") (userlevel_name (tree a).readlevel)
                              ++ attribute (codes " writelevel")
                                  (userlevel_name (tree a).writelevel)
                            else [])
                          ++ (codes "><description> </description></param>" ++ newline))))))

  -- `visit` in the second pass.
  unfoldable pub visit : ℕ → ℕ → Bytes
  unfolding write_param node_type_str accept userlevel_name
  visit level a = elim (accept (tree a).kind (tag a)) [
    | visit_object ↦ []
    | visit_event ↦
        indentation level
        ++ (attribute (codes "<cmd name") (tree a).name
            ++ (attribute (codes " execlevel") (userlevel_name (tree a).writelevel)
                ++ (codes "><description> </description></cmd>" ++ newline)))
    | visit_node ↦ write_param level a (node_type_str a)
    | visit_parameter t ↦ write_param level a (tag_name t)
  ]

  visit_all : ℕ → List ℕ → Bytes
  unfolding visit
  visit_all level [] = []
  visit_all level (c ∷ cs) = visit level c ++ visit_all level cs

  abbrev description : Bytes
  description = codes "<description> </description>"

  -- The artificial entries of the root.
  abbrev root_entries : ℕ → Bytes
  root_entries level =
      indentation level
      ++ (attribute (codes "<param name") (codes "ul")
          ++ (attribute (codes " type") (codes "INTEGER")
              ++ (attribute (codes " mode") (codes "readonly")
                  ++ (codes ">"
                      ++ (description
                          ++ (codes "</param>"
                              ++ (newline
                                  ++ (indentation level
                                      ++ (attribute (codes "<cmd name") (codes "change-ul")
                                          ++ (codes ">"
                                              ++ (description
                                                  ++ (attribute (codes "<ret type")
                                                        (codes "INTEGER")
                                                      ++ (codes " />"
                                                          ++ (attribute (codes "<arg name")
                                                            (codes "ul")
                                                            ++ (attribute (codes " type")
                                                            (codes "INTEGER")
                                                            ++ (codes " />"
                                                            ++ (attribute (codes "<arg name")
                                                            (codes "passwd")
                                                            ++ (attribute (codes " type")
                                                            (codes "STRING")
                                                            ++ (codes " /></cmd>"
                                                            ++ newline)))))))))))))))))))

  -- One round of the destructor's loop: a node and all of its children.
  unfoldable pub block : ℕ → ℕ → Bytes
  unfolding visit_all node_type_str
  block level a =
      let inner = level + 1 in
      let outer = decrement_indentation 1 inner in
      let children = visit_all inner (tree a).children in
      let line : Bytes = description ++ newline in
      elim (tree a).parent [
        | none ↦
            indentation level
            ++ (attribute (codes "<module name") (tree a).name
                ++ (codes ">"
                    ++ (newline
                        ++ (indentation inner
                            ++ (line
                                ++ (root_entries inner
                                    ++ (children
                                        ++ (indentation outer
                                            ++ (codes "</module>" ++ newline)))))))))
        | some _ ↦
            indentation level
            ++ (attribute (codes "<xtypedef name") (node_type_str a)
                ++ (codes ">"
                    ++ (newline
                        ++ (indentation inner
                            ++ (line
                                ++ (children
                                    ++ (indentation outer ++ (codes "</xtypedef>" ++ newline))))))))
      ]

  unfoldable pub blocks : ℕ → List ℕ → Bytes
  unfolding block
  blocks level [] = []
  blocks level (a ∷ more) = block level a ++ blocks level more

  -- All that constructor, browsing and destructor write, for the objects that were visited.
  unfoldable pub document : Bytes → List ℕ → Bytes
  unfolding blocks first_pass
  document system_name visited =
      codes "<?xml version="
      ++ (quote
          ++ (codes "1.0"
              ++ (quote
                  ++ (attribute (codes " encoding") (codes "UTF-8")
                      ++ (codes "?>"
                          ++ (newline
                              ++ (attribute (codes "<system name") system_name
                                  ++ (attribute (codes " version") (codes "1.0")
                                      ++ (codes ">"
                                          ++ (newline
                                              ++ (indentation 1
                                                  ++ (description
                                                      ++ (newline
                                                          ++ (blocks 1
                                                            (first_pass tag tree visited [])
                                                            ++ (codes "</system>"
                                                            ++ newline)))))))))))))))
