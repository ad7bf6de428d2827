-- ===== src/Lib.antt =====
-- The Demolition app: a game in which attackers capture flags that defenders guard. The repository
-- holds the app (Demolition/Demolition), the libraries that it links (Demolition/Pods), and, inside
-- an image asset, a saved page of the database's console with its scripts.
--
-- The app. A party is a folder of a database. A player's screens keep the party's id, the player's
-- name and the teams, write single values below the folder, and listen to parts of it.
--   Party/Database  paths, written values, snapshots and the effects of a handler; the database
--                   itself is a parameter, a record of a store with the laws of writing and reading
--   Party/Lobby     HostLobbyViewController.swift and RegularLobbyViewController.swift: viewWillAppear,
--                   viewDidDisappear, the closures given to observe, startButton, valueChanged and
--                   the table's data source, each a function from the screen's state to its new
--                   state and its effects; a forced cast that fails is none
--   Party/Flags     viewDidLoad of both lobbies, and the annotations; the order in which a
--                   dictionary yields its values is the list of annotations
--   Party/GameOver  GameOverViewController.swift: the announcement, and the removal of the party
--
-- The script, Demolition/Demolition/Assets.xcassets/pin.imageset/
-- Demolition – Database – Firebase console_files/prompt_embed_static.js. It is minified; comments
-- give its names in backquotes. Its objects are records, its methods functions that return the new object.
--   Prompt/StructsMap     the map `Ee` and its iterator
--   Prompt/Keys           key codes, and the key handler `Jj`, a state machine over key events
--   Prompt/Control        the control `U`: its masks are functions on the flags, and the events that
--                         it dispatches are a list; what listeners answer is a parameter
--   Prompt/Container      the container `Ao`: its children, the highlighted one, and the keys
--   Prompt/XhrIo          the request object `Pf`; what XMLHttpRequest does is a parameter
--   Prompt/Logger         the loggers `Nc`, as the list of those that there are
--   Prompt/MenuButton     the button `cp` and its menu, of which it keeps what it reads
--   Prompt/MenuButton/Active   which item a button says is active, as states of Aria
--   Prompt/Ratings        the rating `ip`, whose index is an integer from -1 on
--   Prompt/Selection      the selection model `np`; an item is told of its selection by a function
--   Prompt/Select         the button `pp` that selects an item; it uses Selection
--   Prompt/LabelInput     the field `Lo`; its timeouts are counted, and run out as calls
--   Prompt/Autocomplete   the autocompletion `pn`; its matcher and renderer are other objects
--   Prompt/ListenerMap    the map `de` of listeners
--   Prompt/EventTarget    the event target `K`; a callback is a parameter that may change the maps
--                         of all targets while an event is on its way; it uses ListenerMap
--   Prompt/IframeIo       the request object `bm`; what the frame does is input, and what a listener
--                         of "ready" does is a parameter
--   Prompt/Animation      the animation `Wj`, over the times of its calls; its progress is the
--                         time that is over, by the duration
--   Prompt/NumberFormat   how `ml` and `ll` read a pattern; a text is a list of code units
--   Prompt/QueryData      the query data `hg`; its arrays stand in a store, which copies share
--   Prompt/RateThrottler  the throttle `zd` of error reports
--   Prompt/RunQueue       `We`, `Xe`: calls that run later; the runner runs on fuel
--   Prompt/Timer          the timer `vf`, over the times of its calls
--   Prompt/Viewport       the delay `Ki` and the monitor `dj` of the size of the window
--   Prompt/Aria           `Fg`, `Gg`, `Hi`, `Gi`, `O`, `Ii`, `Ji`: roles and states
--   Prompt/Aria/Controls  what a control writes of itself as such states: `ac`, `fo`, `ho`
--   Prompt/EventTypes     `Td`, `Ud`, `Rd`: the types of events
--   Survey/Question       the question `Y`: the warning, the threshold and the event of an answer
--   Survey/Choice         the question `Bs` with its rows, its field and the button "Next"
--   Survey/DropDown       the question `Hs` and its menu `Gs`, over the times of its calls
--   Survey/MultiSelect    the question `Ds` with its rows and its button
--   Survey/TextField      the field `As`; a text is a list of code units
--   Survey/Numeric        the question `Ls`; what `Number` makes of a text is a parameter
--   Survey/Touch          the class `Ru`; a coordinate is an integer
--   Survey/Elision        the class `eu`; the page is the list of the nodes that are found, and the
--                         share of a percentage, which the script computes on floats, a parameter
--   Survey/Video          the player `Qs` of a video question, and the answers below it (`Xs`)
--   Survey/Sequence       the prompt `Z`: its questions, their numbers, and what it sends; a
--                         question of a group is the one that is asked, with those after it
--   Survey/Rating         the question `Ys`, over the control of Prompt/Ratings
--   Survey/Report         `Jt`, what the site is told; the keys of a beacon are read already
--   Survey/Site           the survey `Xu` as a site shows it, with the prompt that it extends
--                         and what the size of the window makes of it
-- The script ga.js, which counts the visits of the page, is read in Tracker/*:
--   Tracker/Visit         the visitor, the limit of the hits, and the two cookies
--   Tracker/Visit/Dotted  decimal numbers in texts that are joined and split at dots; the script's
--                         `1*` of a text is a parameter of what reads a cookie
--   Tracker/Hits          the hits that a page makes, and the fields of a tracker
--   Tracker/Calls         the calls of a page: `U` and its methods
--   Tracker/FieldNames    the fields, by their names
--   Tracker/Tables        the tables of the methods that set and read fields
--   Tracker/Methods       what such a method does
--   Tracker/Request       what the queries of a hit are made of
--   Tracker/Beacon        the queries of a hit; the encoding of a text is a parameter
--   Tracker/Sending       the ways a query is sent, and what an answer leads to
--   Tracker/Source        the campaign, the referrer, the search engines and the address
--   Tracker/Campaign      where a visit comes from; addresses are read and decoded already
--   Tracker/Choice        which cookie names the visitor, and how times are told
--   Tracker/Orders        the orders and items that a page adds
-- The script gtm.js, which runs tags on the page, is read in Tags/*:
--   Tags/Masks            the lists of numbers that are written in letters
--   Tags/Permissions      which kinds of tags the page allows
--   Tags/Rules            which tags an event resolves, with the rules of Masks
--   Tags/Layer            the messages of the page and the events in them; an object is a reference,
--                         as a number, on which the number of its event is written
--   Tags/Waiting          what waits for the page and for scripts; a function is a number
--   Tags/Reports          the reports that are sent of the tags
-- The container keeps what it reads of a control, the event target holds maps of listeners, and
-- the select button a selection model; the question with one answer and the one for a number use
-- the field, the one for a rating its control, and the survey of a site the prompt that sends its
-- answers. Hits and requests have the types of hits that a visit limits, the orders of a page are
-- those that its requests send, and the rules of tags are the ones that are read from letters. The
-- other modules stand for themselves.
--
-- Base holds what all share: tests on numbers, lists, dictionaries with a fixed order of their keys,
-- and the decimal form of a number. Native numbers are unbounded; the counters, times and key codes
-- of the program stay far below 2^53, where the script's numbers and the app's integers are exact.
-- Loops are recursion on a list. The search of the container runs on the loop's own bound, the
-- number of children and one more; that of the autocompletion, as in the source, at most once for
-- each row. The ancestors of an event target are counted to the limit of the source's assertion,
-- where the dispatch is none.
--
-- Not modelled: of the app, views, maps, colours and transitions; the screens whose classes are not in the
-- repository; the linked libraries; the other scripts of the saved page; of the three scripts, the parts
-- that only build or style elements or read the layout of the page, calculations on floats (the
-- formatting of numbers, coordinates of animations), and promises, deferred results, listeners on
-- elements, addresses, and templates.
pub mod Base
pub mod Party
pub mod Prompt
pub mod Survey
pub mod Tracker
pub mod Tags
